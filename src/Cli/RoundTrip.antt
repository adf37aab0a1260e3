-- ===== src/Cli/RoundTrip.antt =====
-- The options of a tool are read back from a command line that gives each of them.
use aether_stream.Common.{ℕ, ◌<◌, ◌≡◌, Bool, true, false, some, List, [], ◌∷◌, ◌++◌, codes, arith}
use aether_stream.Core.Types.{u64_mod}
use aether_stream.Core.Expected.{value}
use aether_stream.Cli.Text.{
  View, starts_with, cursor_value, behind_eq, matches, view_eq, is_supported, supported_capacities,
  supported_payload_sizes,
}
use aether_stream.Cli.Options.{
  BenchOptions, PubOptions, SubOptions, ReplayOptions, InspectWalOptions,
}
use aether_stream.Cli.Parse.{
  parse_bench_args, read_bench, parse_pub_args, read_pub, parse_sub_args, read_sub,
  parse_replay_args, read_replay, parse_inspect_wal_args, read_inspect_wal, parse_loop,
}
use aether_stream.Cli.Decimal.{
  decimal, IsValue, decimal-IsValue, parse_u64-decimal, parse_size-decimal,
}
use aether_stream.Cli.Tools.{Tool, OptionsOf, parse_args}

abbrev pub flag : Bool → View → List View
flag true name = name ∷ []
flag false name = []

-- The log of aether_sub may be missing.
abbrev pub wal_option : View → List View
wal_option [] = []
wal_option (c ∷ path) = codes "--wal" ∷ (c ∷ path) ∷ []

-- The arguments that give each option of a tool.
abbrev pub line : (t : Tool) → OptionsOf t → List View
line Tool.bench o =
    codes "--messages"
    ∷ decimal o.messages
    ∷ codes "--payload-size"
    ∷ decimal o.payload_size
    ∷ codes "--capacity"
    ∷ decimal o.capacity
    ∷ codes "--output-dir"
    ∷ o.output_dir
    ∷ flag o.help (codes "--help")
line Tool.publish o =
    codes "--wal"
      ∷ o.wal_path
      ∷ codes "--messages"
      ∷ decimal o.messages
      ∷ codes "--wal-size"
      ∷ decimal o.wal_size_bytes
      ∷ flag o.flush_on_commit (codes "--flush-on-commit")
    ++ flag o.help (codes "--help")
line Tool.sub o =
    codes "--messages"
      ∷ decimal o.messages
      ∷ codes "--limit"
      ∷ decimal o.limit
      ∷ codes "--capacity"
      ∷ decimal o.capacity
      ∷ wal_option o.wal_path
    ++ flag o.help (codes "--help")
line Tool.replay o =
    codes "--wal"
    ∷ o.wal_path
    ∷ codes "--limit"
    ∷ decimal o.limit
    ∷ codes "--payload-preview-bytes"
    ∷ decimal o.payload_preview_bytes
    ∷ flag o.help (codes "-h")
line Tool.inspect_wal o =
    codes "--wal"
      ∷ o.wal_path
      ∷ codes "--limit"
      ∷ decimal o.limit
      ∷ flag o.verbose (codes "--verbose")
    ++ flag o.help (codes "-h")

abbrev pub IsValueIfAny : View → Type 0
IsValueIfAny [] = Unit {0}
IsValueIfAny (c ∷ text) = IsValue (c ∷ text)

-- The options that an argument can give: paths that are not empty and have no dash in front,
-- numbers of 64 bits, and the sizes that the tools support.
abbrev pub Printable : (t : Tool) → OptionsOf t → Type 0
Printable Tool.bench o =
    IsValue o.output_dir
    × (o.messages < u64_mod)
    × (is_supported o.payload_size supported_payload_sizes ≡ true)
    × (is_supported o.capacity supported_capacities ≡ true)
Printable Tool.publish o =
    IsValue o.wal_path × (o.messages < u64_mod) × (o.wal_size_bytes < u64_mod)
Printable Tool.sub o =
    IsValueIfAny o.wal_path
    × (o.messages < u64_mod)
    × (o.limit < u64_mod)
    × (is_supported o.capacity supported_capacities ≡ true)
Printable Tool.replay o =
    IsValue o.wal_path × (o.limit < u64_mod) × (o.payload_preview_bytes < u64_mod)
Printable Tool.inspect_wal o = IsValue o.wal_path × (o.limit < u64_mod)

pub supported_capacity-lt : (n : ℕ) → is_supported n supported_capacities ≡ true → n < u64_mod
unfolding is_supported
supported_capacity-lt n h = ground arith

supported_payload_size-lt : (n : ℕ) → is_supported n supported_payload_sizes ≡ true → n < u64_mod
unfolding is_supported
supported_payload_size-lt n h = ground arith

-- What becomes of a printed number.
ruleset printed = (decimal-IsValue, parse_u64-decimal, parse_size-decimal)

-- Each round, with the flags by cases.
module _ (program path : View) (p : IsValue path) where
  bench_round :
      (messages size capacity : ℕ) (help : Bool)
      → messages < u64_mod
      → is_supported size supported_payload_sizes ≡ true
      → is_supported capacity supported_capacities ≡ true
      → let o : BenchOptions = record {
        help = help;
        messages = messages;
        payload_size = size;
        capacity = capacity;
        output_dir = path;
      } in
        parse_bench_args (program ∷ line Tool.bench o) ≡ some (value o)
  unfolding parse_bench_args parse_loop read_bench cursor_value behind_eq matches view_eq
      starts_with
  bench_round messages size capacity true m s c =
      simp (printed, m, s, supported_payload_size-lt size s, c, supported_capacity-lt capacity c, p)
  bench_round messages size capacity false m s c =
      simp (printed, m, s, supported_payload_size-lt size s, c, supported_capacity-lt capacity c, p)

  publish_round :
      (messages size : ℕ) (on_commit help : Bool)
      → messages < u64_mod
      → size < u64_mod
      → let o : PubOptions = record {
        help = help;
        wal_path = path;
        messages = messages;
        wal_size_bytes = size;
        flush_on_commit = on_commit;
      } in
        parse_pub_args (program ∷ line Tool.publish o) ≡ some (value o)
  unfolding parse_pub_args parse_loop read_pub cursor_value behind_eq matches view_eq starts_with
  publish_round messages size true true m s = simp (printed, m, s, p)
  publish_round messages size true false m s = simp (printed, m, s, p)
  publish_round messages size false true m s = simp (printed, m, s, p)
  publish_round messages size false false m s = simp (printed, m, s, p)

  replay_round :
      (limit preview : ℕ) (help : Bool)
      → limit < u64_mod
      → preview < u64_mod
      → let o : ReplayOptions = record {
        help = help;
        wal_path = path;
        limit = limit;
        payload_preview_bytes = preview;
      } in
        parse_replay_args (program ∷ line Tool.replay o) ≡ some (value o)
  unfolding parse_replay_args parse_loop read_replay cursor_value behind_eq matches view_eq
      starts_with
  replay_round limit preview true l b = simp (printed, l, b, p)
  replay_round limit preview false l b = simp (printed, l, b, p)

  inspect_wal_round :
      (limit : ℕ) (verbose help : Bool)
      → limit < u64_mod
      → let o : InspectWalOptions = record {
        help = help;
        wal_path = path;
        limit = limit;
        verbose = verbose;
      } in
        parse_inspect_wal_args (program ∷ line Tool.inspect_wal o) ≡ some (value o)
  unfolding parse_inspect_wal_args parse_loop read_inspect_wal cursor_value behind_eq matches
      view_eq starts_with
  inspect_wal_round limit true true l = simp (printed, l, p)
  inspect_wal_round limit true false l = simp (printed, l, p)
  inspect_wal_round limit false true l = simp (printed, l, p)
  inspect_wal_round limit false false l = simp (printed, l, p)

sub_round :
    (program path : View) (messages limit capacity : ℕ) (help : Bool)
    → IsValueIfAny path
    → messages < u64_mod
    → limit < u64_mod
    → is_supported capacity supported_capacities ≡ true
    → let o : SubOptions = record {
      help = help;
      wal_path = path;
      messages = messages;
      limit = limit;
      capacity = capacity;
    } in
      parse_sub_args (program ∷ line Tool.sub o) ≡ some (value o)
unfolding parse_sub_args parse_loop read_sub cursor_value behind_eq matches view_eq starts_with
sub_round program [] messages limit capacity true p m l c =
    simp (printed, m, l, c, supported_capacity-lt capacity c)
sub_round program [] messages limit capacity false p m l c =
    simp (printed, m, l, c, supported_capacity-lt capacity c)
sub_round program (ch ∷ path) messages limit capacity true p m l c =
    simp (printed, m, l, c, supported_capacity-lt capacity c, p)
sub_round program (ch ∷ path) messages limit capacity false p m l c =
    simp (printed, m, l, c, supported_capacity-lt capacity c, p)

-- The parser of each tool reads the options back from the arguments that give them, behind any
-- name of the program, if the options can be given: paths with no dash in front and not empty (that
-- of aether_sub may be), numbers below `2 ^ 64`, and supported sizes.
pub parse_args-line :
    (t : Tool) (program : View) (o : OptionsOf t)
    → Printable t o
    → parse_args t (program ∷ line t o) ≡ some (value o)
parse_args-line Tool.bench program o h =
    bench_round program o.output_dir h.0 o.messages o.payload_size o.capacity o.help h.1 h.2 h.3
parse_args-line Tool.publish program o h =
    publish_round program o.wal_path h.0 o.messages o.wal_size_bytes o.flush_on_commit o.help h.1
      h.2
parse_args-line Tool.sub program o h =
    sub_round program o.wal_path o.messages o.limit o.capacity o.help h.0 h.1 h.2 h.3
parse_args-line Tool.replay program o h =
    replay_round program o.wal_path h.0 o.limit o.payload_preview_bytes o.help h.1 h.2
parse_args-line Tool.inspect_wal program o h =
    inspect_wal_round program o.wal_path h.0 o.limit o.verbose o.help h.1
