-- ===== src/McUtils/Tests.antt =====
-- Runs of mcutils.c, and the theorem about its dump at a concrete input.
use app_loctag.Base.{
  Option, ◌≡◌, ◌≤◌, ◌↔◌, refl, arith, true, [], ◌∷◌, ◌++◌, none, some, Bytes, codes, replicate, pos,
  length, take, drop,
}
use app_loctag.McUtils.{System, Outcome, WriteCall, read_file, write_file}
use app_loctag.McUtils.Files.{After, behind, kept, WritesAtStart, read_file-write_file}
use app_loctag.McUtils.HexDump.{title, hex_dump}
use app_loctag.McUtils.HexDump.Laws.{dump_rows, hex_dump-dump_rows}

abbrev seventeen : Bytes
seventeen = codes "ABCDEFGHIJKLMNO" ++ (10 ∷ b'Z' ∷ [])

-- The second row has one byte.
dump_run :
    (hex_dump (replicate 17 9) none seventeen).0
    ≡ codes "  0000  41 42 43 44 45 46 47 48 49 4a 4b 4c 4d 4e 4f 0a  ABCDEFGHIJKLMNO."
      ++ (10 ∷ (codes "  0010  5a                                               Z" ++ 10 ∷ []))
unfolding hex_dump
dump_run = refl

hex_dump-dump_rows_example :
    hex_dump (replicate 17 9) (some (codes "x")) seventeen
    ≡ (title (some (codes "x")) 17 ++ dump_rows 0 [] seventeen, pos 0)
hex_dump-dump_rows_example =
    hex_dump-dump_rows (replicate 17 9) (some (codes "x")) seventeen refl (omega arith)

-- A file that has held five bytes, and a write of two to it.
abbrev before : Bytes
before = codes "abcde"

abbrev holds_before : System
holds_before = record {
  opens = λ flags path. true;
  reads = λ path max. some (take max before);
  writes = λ flags path bytes. some (length bytes);
}

-- The file behind a call of `write`, as POSIX has it.
abbrev rewritten : After
rewritten (flags, bytes, n) = record holds_before {
  reads = λ path max. some (take max (take n bytes ++ drop n (kept flags before)));
}

rewritten-WritesAtStart : WritesAtStart rewritten (codes "f") before
rewritten-WritesAtStart = record { opens_again = λ call. refl; holds = λ flags bytes n max. refl }

-- Two bytes of a buffer of three.
abbrev written : Outcome × Option WriteCall
written = write_file holds_before 3 (codes "XYZ") 2 (codes "f")

read_file-write_file_example :
    (written.0.fds ≡ 3)
    × ((read_file (behind holds_before rewritten written.1) 3 100 (codes "f")).fds ≡ 3)
    × (((read_file (behind holds_before rewritten written.1) 3 100 (codes "f")).buf ≡ codes "XY")
        ↔ (5 ≤ 2))
unfolding write_file
read_file-write_file_example =
    read_file-write_file holds_before rewritten (codes "f") (codes "XYZ") before 3 2 100
      (omega arith) rewritten-WritesAtStart refl (omega arith)

-- The old end stays.
read_back :
    (read_file (behind holds_before rewritten written.1) 3 100 (codes "f")).buf ≡ codes "XYcde"
unfolding read_file write_file
read_back = refl
