-- ===== src/Lib.antt =====
-- scat splits data into chunks, passes them through chains of procs (grouping, parity, indexing,
-- checksums) and spreads copies of them over stores. This library models its core and proves
-- what makes it correct.
--
-- The parts, and the files they are modelled in:
--   Chunk          chunk.go: chunks, meta data, and data that may be read once
--   Errors         the error values that packages compare or pass on
--   Series         seriessort/series.go: a slice of cells that is filled in any order
--   Sort           procs/sort.go: chunks sent on in the order of their numbers
--   Group          procs/group.go: chunks collected by so many
--   Procs          procs/procs.go, and below it Procs/Combine (cascade.go, onend.go, filter.go,
--                  discardchunk.go, procfunc.go, checksum.go), Procs/Chain (chain.go),
--                  Procs/Parity (parity.go), Procs/Backlog (backlog.go, slots/slots.go),
--                  Procs/Concur (concur.go, concur/concur.go), Procs/Commands (cmdfunc.go) and
--                  Procs/Gzip (gzip.go)
--   Split, Join    split/splitter.go, procs/writerto.go, procs/join.go: data cut into chunks, and
--                  chunks written out in order
--   IndexProc      procs/index.go: the index of a chain's final chunks, and IndexProc/Unproc,
--                  which reads it
--   Index          index/write.go, index/scanner.go, checksum/checksum.go: its lines
--   Stripe         stripe/stripe.go, stripe/rr.go: which stores get which copies
--   Stores         stores/: Quota (quota/quota.go), Copies (copies/copies.go), Mem (mem.go),
--                  Listing (stores.go), MultiReader (multireader.go), Paths (strpart.go, dir.go),
--                  Disk (cp.go), Listed (dir.go, cp.go, dd.go), Remote (dd.go, rclone.go) and
--                  Striping (stripe/stripe.go), which calls Stripe with what the registries of
--                  quotas and copies hold; Striping/Copying makes the copies, and
--                  Striping/Restarted lets MultiReader read them
--   Tmpdedup       tmpdedup/man.go, tmpdedup/dir.go, procs/pathcmd.go: temporary files that
--                  several users share
--   Slidecnt       slidecnt/counter.go: rates within a window of time
--   Stats          stats/stats.go, stats/proc.go: counters of procs
--   Ansirefresh    ansirefresh/: a display that is written over, and the ticker that draws it
--   Argparse       argparse/: the parsers of the command line's language
--   Argproc        argproc/argproc.go: proc strings, read into procs as data, and what their
--                  quotas tell the stats
--   Command        cmd/main.go: the command, from its arguments to its exit
--   Prelude        shared names, tests, lists, maps and sorting; Tests holds runs and the
--                  theorems at concrete inputs
--
-- A function of the code keeps its name, in snake case; a method that changes its receiver
-- returns the new one. A channel of results is the list of what is sent on it. A panic is `none`,
-- or a constructor of the result. Hashes, identities and locations are numbers, and a Go map is
-- an association list. Sizes and uses of quotas wrap around at 64 bits.
--
-- `Stripe` runs on fuel: `Total` gives an amount that is always enough where the sequence brings
-- every destination. Parsers that loop, or panic on a
-- type, give `no_return`, and those that panic on a value `crashed`; the parser of proc strings has the string's length and one as fuel,
-- and so has the reading of an index, a line of which is at least one byte.
--
-- The file system, commands, chunking, compression, Reed-Solomon, clocks and the numbers' formats
-- are arguments, with what the code relies on as hypotheses.
--
-- Not modelled: goroutines beyond the orders named in each file, and the locks of the registries'
-- lists; the text of the usage and the formats of numbers.
pub mod Prelude
pub mod Errors
pub mod Series
pub mod Chunk
pub mod Sort
pub mod Split
pub mod Join
pub mod Procs
pub mod Group
pub mod Stores
pub mod Stripe
pub mod Argparse
pub mod Index
pub mod IndexProc
pub mod Tmpdedup
pub mod Slidecnt
pub mod Ansirefresh
pub mod Stats
pub mod Argproc
pub mod Command
pub mod Tests
