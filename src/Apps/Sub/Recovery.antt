-- ===== src/Apps/Sub/Recovery.antt =====
-- apps/aether_sub.cpp: the replay of a log of events, and `main`. The type of the
-- events is a parameter here, with its bytes.
use aether_stream.Common.{
  String, ℕ, suc, ◌+◌, ◌-◌, ◌%◌, ◌<◌, ◌≡◌, refl, ap, ◌∙◌, not, ltb, if◌then◌else◌, is_empty, Option,
  none, some, List, [], ◌∷◌, ◌++◌, append-nil, length, length-append, take, arith,
}
use aether_stream.Core.Types.{u64_mod}
use aether_stream.Core.Status.{Status, is_ok, status_ok}
use aether_stream.Core.Expected.{value, error}
use aether_stream.Metrics.Counters
use aether_stream.Metrics.Counters.{Counters, zero_counters}
use aether_stream.Io.Os.{Os}
use aether_stream.Io.Mmap.{MmapFile}
use aether_stream.Wal.Record.{Bytes, WalRecordHeader}
use aether_stream.Wal.Reader.{reader_on}
use aether_stream.Wal.Log.{encode_all}
use aether_stream.Wal.Log.Replay.{HoldsLog, length-encode_all-ge}
use aether_stream.Persistent.{TriviallyCopyable}
use aether_stream.Persistent.Replay.{replay_on, replay_with_metrics}
use aether_stream.Persistent.Recover.{entries_of, recover, replay_on_lem}
use aether_stream.Cli.Text.{View}
use aether_stream.Cli.Help.{sub_help}
use aether_stream.Cli.Options.{SubOptions}
use aether_stream.Cli.Parse.{parse_sub_args}
use aether_stream.Apps.Sub
use aether_stream.Apps.Sub.{dispatch_local}
use aether_stream.Apps.Sub.Local.{print_event, take-nil, printed_more}

-- `seen`, and the events that the visitor has printed.
pub record Seen (T : Type 0) : Type 0 where
  pub seen : ℕ
  pub printed : List T

abbrev pub none_seen : {T : Type 0} → Seen T
none_seen = record { seen = 0; printed = [] }

-- The visitor.
abbrev pub visit_event : {T : Type 0} → ℕ → Seen T → T → WalRecordHeader → Status × Seen T
visit_event limit v event header = (
  status_ok,
  record {
    seen = (v.seen + 1) % u64_mod;
    printed = if ltb v.seen limit then v.printed ++ event ∷ [] else v.printed;
  },
)

pub record Summary (T : Type 0) : Type 0 where
  pub printed : List T
  pub replayed : ℕ
  pub printed_count : ℕ
  pub suppressed : ℕ
  pub recovered_records : ℕ
  pub recovery_failures : ℕ

pub data Output (T : Type 0) : Type 0 where
  bad_arguments : Status → Output T
  help_text : String → Output T
  local_demo : Sub.Output → Output T
  bad_capacity : Output T
  not_replayed : (printed : List T) → Status → Output T
  summary : Summary T → Output T

-- What `main` prints behind the replay.
abbrev pub report_replay : {T : Type 0} → SubOptions → Status × Seen T × Counters → ℕ × Output T
report_replay options (status, v, counters) =
    let metrics = Counters.snapshot counters in
    if not (is_ok status) then (1, not_replayed v.printed status) else (
      0,
      summary (record {
        printed = v.printed;
        replayed = v.seen;
        printed_count = if ltb v.seen options.limit then v.seen else options.limit;
        suppressed = if ltb options.limit v.seen then v.seen - options.limit else 0;
        recovered_records = metrics.recovered_records;
        recovery_failures = metrics.recovery_failures;
      }),
    )

module _ {T : Type 0} (t : TriviallyCopyable T) (os : Os) where
  open os use {World}

  abbrev pub behind_replay :
      SubOptions → Option (Status × Seen T × Counters × World) → Option (ℕ × Output T × World)
  behind_replay options none = none
  behind_replay options (some (status, v, counters, w)) =
      let (code, out) = report_replay options (status, v, counters) in some (code, out, w)

  -- The branch of `main` with a log.
  unfoldable pub replay_log : SubOptions → World → Option (ℕ × Output T × World)
  replay_log options w = behind_replay options (
      replay_with_metrics {T = T} 65536 t os (visit_event options.limit) options.wal_path none_seen
        zero_counters w)

  abbrev pub behind_local : Option (Option (ℕ × Sub.Output)) → World → Option (ℕ × Output T × World)
  behind_local none w = some (2, bad_capacity, w)
  behind_local (some none) w = none
  behind_local (some (some (code, out))) w = some (code, local_demo out, w)

  abbrev pub sub_with : SubOptions → World → Option (ℕ × Output T × World)
  sub_with options w =
      if options.help
      then some (0, help_text sub_help, w)
      else if is_empty options.wal_path
      then behind_local (dispatch_local options) w
      else replay_log options w

  -- `main`: the exit code and the output.
  unfoldable pub sub_main : List View → World → Option (ℕ × Output T × World)
  sub_main args w = elim (parse_sub_args args) [
    | none ↦ none
    | some (error s) ↦ some (2, bad_arguments s, w)
    | some (value options) ↦ sub_with options w
  ]

-- The events of a log.
abbrev pub events_of : {T : Type 0} → List (T × WalRecordHeader) → List T
events_of [] = []
events_of ((x, h) ∷ rs) = x ∷ events_of rs

recover_all :
    {T : Type 0} (limit : ℕ) (v : Seen T) (c : Counters) (rs : List (T × WalRecordHeader))
    → v.seen + length rs < u64_mod
    → c.recovered_records + length rs < u64_mod
    → recover (visit_event limit) v c rs ≡ (
      status_ok,
      record {
        seen = v.seen + length rs;
        printed = v.printed ++ take (limit - v.seen) (events_of rs);
      },
      record c { recovered_records = c.recovered_records + length rs },
    )
unfolding Counters.record_recovered_record
recover_all limit v c [] p q =
    let a : v.seen + 0 ≡ v.seen = omega arith in
    let b : c.recovered_records + 0 ≡ c.recovered_records = omega arith in
    rw (a, b, take-nil (limit - v.seen), append-nil v.printed)
recover_all limit v c ((x, h) ∷ rs) p q =
    let a : (v.seen + 1) % u64_mod ≡ v.seen + 1 = omega (arith, p) in
    let b : (c.recovered_records + 1) % u64_mod ≡ c.recovered_records + 1 = omega (arith, q) in
    let a' : v.seen + 1 + length rs ≡ v.seen + suc (length rs) = omega arith in
    let b' : c.recovered_records + 1 + length rs ≡ c.recovered_records + suc (length rs) =
      omega arith in
    let v' : Seen _ = record {
      seen = v.seen + 1;
      printed = print_event limit v.seen v.printed x;
    } in
    let c' = record c { recovered_records = c.recovered_records + 1 } in
    rw (a, b)
      (recover_all limit v' c' rs (omega (arith, p)) (omega (arith, q))
        ∙ rw (a', b', printed_more limit v.seen v.printed x (events_of rs)))

pub length-entries_of :
    {T : Type 0} (t : TriviallyCopyable T) (rs : List (T × WalRecordHeader))
    → length (entries_of t rs) ≡ length rs
length-entries_of t [] = refl
length-entries_of t ((x, h) ∷ rs) = ap suc (length-entries_of t rs)

-- What the replay of events is to print.
abbrev pub all_replayed : {T : Type 0} → SubOptions → List T → Summary T
all_replayed o xs = record {
  printed = take o.limit xs;
  replayed = length xs;
  printed_count = if ltb (length xs) o.limit then length xs else o.limit;
  suppressed = length xs - o.limit;
  recovered_records = length xs;
  recovery_failures = 0;
}

pub length-events_of :
    {T : Type 0} (rs : List (T × WalRecordHeader)) → length (events_of rs) ≡ length rs
length-events_of [] = refl
length-events_of ((x, h) ∷ rs) = ap suc (length-events_of rs)

report_eq :
    {T : Type 0} (o : SubOptions) (rs : List (T × WalRecordHeader))
    → length rs < u64_mod
    → report_replay o (recover (visit_event o.limit) none_seen zero_counters rs)
      ≡ (0, summary (all_replayed o (events_of rs)))
unfolding Counters.snapshot
report_eq o rs few =
    let a : 0 + length rs ≡ length rs = omega arith in
    let b : o.limit - 0 ≡ o.limit = omega arith in
    let c : (if ltb o.limit (length rs) then length rs - o.limit else 0) ≡ length rs - o.limit =
      ground arith in
    rw (
      recover_all o.limit none_seen zero_counters rs (omega (arith, few)) (omega (arith, few)),
      length-events_of rs,
      a,
      b,
      c,
    )

module _ {T : Type 0} (t : TriviallyCopyable T) (os : Os) where
  -- On a log of events the replay of aether_sub ends; it prints the first `--limit` events of the
  -- log, in order, says how many it replayed, printed and suppressed, and exits with 0.
  pub replay_events :
      (o : SubOptions) (f : MmapFile) (rs : List (T × WalRecordHeader)) (zeros : Bytes)
      (w : os.World)
      → HoldsLog f (entries_of t rs) zeros
      → (w' : os.World) × (behind_replay t os o (
            replay_on {T = T} 65536 t os
              (visit_event o.limit)
              none_seen
              zero_counters
              (value (reader_on f), w))
          ≡ some (0, summary (all_replayed o (events_of rs)), w'))
  replay_events o f rs zeros w h =
      let few : length rs < u64_mod = omega (
        arith,
        length-entries_of t rs,
        length-encode_all-ge (entries_of t rs),
        h.whole,
        h.fits,
        ap length h.split,
        length-append (encode_all (entries_of t rs)) zeros,
      ) in
      let (w', e) =
        replay_on_lem 65536 t os (visit_event o.limit) f rs zeros none_seen zero_counters w h in
      (
        w',
        ap (behind_replay t os o) e
            ∙ ap (λ (p : ℕ × Output T). some (p.0, p.1, w')) (report_eq o rs few),
      )
