-- ===== src/Cli/Help.antt =====
-- src/cli/args.cpp, lines 90 to 122: the help texts of the tools.
use aether_stream.Common.{String}

unfoldable pub bench_help : String
bench_help =
    "Usage: aether_bench [options]\nCLI demo benchmark for local Broker throughput. Not official performance data.\n\nOptions:\n  -h, --help\n  --messages <N>\n  --payload-size <8|32|64|256|1024>\n  --capacity <64|256|1024|4096|65536>\n  --output-dir <path>\n"

unfoldable pub pub_help : String
pub_help =
    "Usage: aether_pub [options]\nWrite generated OrderEvent records to a local WAL-backed broker demo.\n\nOptions:\n  -h, --help\n  --wal <path>\n  --messages <N>\n  --wal-size <bytes>\n  --flush-on-commit\n"

unfoldable pub sub_help : String
sub_help =
    "Usage: aether_sub [options]\nLocal demo subscriber only: no networking and no remote/live broker subscription.\nWithout --wal it publishes then consumes an in-process Broker. With --wal it replays OrderEvent records written by aether_pub.\n\nOptions:\n  -h, --help\n  --messages <N>\n  --capacity <64|256|1024|4096|65536>\n  --limit <N>\n  --wal <path>\n"

unfoldable pub replay_help : String
replay_help =
    "Usage: aether_replay [options]\nGeneric raw WAL replay with safe payload previews.\n\nOptions:\n  -h, --help\n  --wal <path>\n  --limit <N>\n  --payload-preview-bytes <N>\n"

unfoldable pub inspect_wal_help : String
inspect_wal_help =
    "Usage: aether_inspect_wal [options]\nInspect and summarize a WAL file.\n\nOptions:\n  -h, --help\n  --wal <path>\n  --limit <N>\n  --verbose\n"
