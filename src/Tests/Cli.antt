-- ===== src/Tests/Cli.antt =====
-- The command line on concrete arguments.
use aether_stream.Common.{◌≡◌, ◌↔◌, refl, List, [], ◌∷◌, some, codes, arith}
use aether_stream.Core.Expected.{Expected, value}
use aether_stream.Cli.Text.{View, parse_u64, is_supported, starts_with}
use aether_stream.Cli.Text
use aether_stream.Cli.Parse.{parse_bench_args}
use aether_stream.Cli.Parse
use aether_stream.Cli.Options.{SubOptions, default_bench, default_sub}
use aether_stream.Cli.Loop.{Good}
use aether_stream.Cli.Numbers.{Spells, parse_u64_iff}
use aether_stream.Cli.Tools.{Tool, parse_args, parse_args_lem, Supported}
use aether_stream.Cli.RoundTrip.{line, parse_args-line, Printable}

-- `aether_bench --messages 12 --capacity=256`.
abbrev bench_args : List View
bench_args = codes "aether_bench" ∷ codes "--messages" ∷ codes "12" ∷ codes "--capacity=256" ∷ []

parse_bench_args_test :
    parse_bench_args bench_args
    ≡ some (value (record default_bench { messages = 12; capacity = 256 }))
unfolding parse_bench_args Parse.read_bench Text.cursor_value Text.behind_eq Text.matches
    Text.view_eq Text.starts_with Text.parse_u64 Text.parse_size Text.from_chars Text.read_digits
    Text.is_supported
parse_bench_args_test = refl

parse_args_lem_example :
    (r : Expected SubOptions) × (parse_args Tool.sub bench_args ≡ some r)
    × Good (Supported Tool.sub) r
parse_args_lem_example = parse_args_lem Tool.sub bench_args

parse_u64_iff_example : (parse_u64 (codes "007") ≡ value 7) ↔ Spells (codes "007") 7
parse_u64_iff_example = parse_u64_iff (codes "007") 7

-- `aether_sub` with a log.
abbrev sub_options : SubOptions
sub_options = record default_sub { wal_path = codes "data/a=b.wal"; messages = 3; capacity = 64 }

sub_options-Printable : Printable Tool.sub sub_options
unfolding is_supported starts_with
sub_options-Printable = (refl, omega arith, omega arith, refl)

parse_args-line_example :
    parse_args Tool.sub (codes "aether_sub" ∷ line Tool.sub sub_options) ≡ some (value sub_options)
parse_args-line_example =
    parse_args-line Tool.sub (codes "aether_sub") sub_options sub_options-Printable
