-- ===== src/Cli.antt =====
-- include/aether/cli/args.hpp and src/cli/args.cpp: the parsing of the tools' options.
pub mod Text
pub mod Options
pub mod Help
pub mod Numbers
pub mod Decimal
pub mod Tools
pub mod RoundTrip
pub mod Parse
pub mod Laws
pub mod Loop
