-- ===== src/CsiParams/Tests.antt =====
-- Runs of makecsiparams.c, and the theorems about it at concrete inputs.
use app_loctag.Base.{
  ◌+◌, ◌/◌, ◌%◌, ◌≡◌, refl, sym, List, [], ◌∷◌, ◌++◌, Option, none, some, arith, Bytes, IsByte, All,
  codes, byte_at, ◌==◌, if◌then◌else◌, when-eq-some,
}
use app_loctag.Chanspec.Fields.{
  chspec_band, chspec_channel, chspec_ctl_sb, chspec_bw, chspec_chan1, chspec_chan2,
}
use app_loctag.CsiParams.Base64.{encode}
use app_loctag.CsiParams.Base64.Decoder.{decode}
use app_loctag.CsiParams.Base64.Laws.{decode-encode}
use app_loctag.CsiParams.Store.{countbit, cleared}
use app_loctag.CsiParams.Store.Laws.{countbit_lem}
use app_loctag.CsiParams.Options.{Opt, Locals, goes_on, initial, option_loop, strtok_all, add_macs}
use app_loctag.CsiParams.Consistent.{initial-IsConsistent}
use app_loctag.CsiParams.Addresses.{ReadsOctets, Places, add_macs-Places}
use app_loctag.CsiParams.Loop.{StaysConsistent, option_loop-StaysConsistent}
use app_loctag.CsiParams.Printed.{Prints, main-Prints}
use app_loctag.CsiParams.Program.{line, nothing, usage, main}

-- An `ether_aton` that knows one address.
abbrev one_address : Bytes → Option Bytes
one_address text =
    if byte_at text 0 == b'0' then some (0 ∷ 0x11 ∷ 0x22 ∷ 0x33 ∷ 0x44 ∷ 0x55 ∷ []) else none

All-bytes : All IsByte (0 ∷ 0x11 ∷ 0x22 ∷ 0x33 ∷ 0x44 ∷ 0x55 ∷ [])
All-bytes =
    (omega arith, (omega arith, (omega arith, (omega arith, (omega arith, (omega arith, tt))))))

one_address-ReadsOctets : ReadsOctets one_address
one_address-ReadsOctets text octets h =
    let (known, same) = when-eq-some _ _ h in rw (sym same) (refl, All-bytes)

abbrev address : Bytes
address = codes "0:11:22:33:44:55"

abbrev four_by_four : List Opt
four_by_four =
    record { c = b'c'; optarg = codes "64/80" }
    ∷ record { c = b'C'; optarg = codes "0xf" }
    ∷ record { c = b'N'; optarg = codes "15" }
    ∷ record { c = b'm'; optarg = address ++ codes "," ++ address }
    ∷ []

splits : strtok_all (codes ",a,bc,") ≡ codes "a" ∷ codes "bc" ∷ []
unfolding strtok_all
splits = refl

abbrev printed : Bytes
printed = codes "OuMB/wAAAgAAESIzRFUAESIzRFUAAAAAAAAAAAAAAAAyAA=="

prints_line : (main one_address 9 four_by_four).output ≡ line printed
unfolding main chspec_band chspec_channel chspec_ctl_sb chspec_bw chspec_chan1 chspec_chan2
prints_line = refl

-- A delay and an enabling that are too large for their fields are cut, without an error: 65536
-- pauses for 0, and 256 stores a 0 but counts as enabled.
abbrev large : List Opt
large = record { c = b'd'; optarg = codes "65536" } ∷ record { c = b'e'; optarg = codes "256" } ∷ []

cuts :
    (main one_address 13 (large ++ four_by_four)).output
    ≡ line (codes "OuMA/wAAAgAAESIzRFUAESIzRFUAAAAAAAAAAAAAAAAAAA==")
unfolding main chspec_band chspec_channel chspec_ctl_sb chspec_bw chspec_chan1 chspec_chan2
cuts = refl

-- An error prints nothing, and `main` returns 0 as if there were none.
abbrev five_addresses : List Opt
five_addresses = record { c = b'm'; optarg = codes "0,0,0,0,0" } ∷ []

error_runs :
    (main one_address 3 five_addresses ≡ record { output = nothing; status = 0 })
    × (main one_address 1 [] ≡ record { output = usage; status = 0 })
    × (main one_address 2 [] ≡ record { output = nothing; status = 0 })
unfolding main
error_runs = (refl, refl, refl)

main-Prints_example :
    (s : Locals) × (option_loop one_address initial four_by_four ≡ goes_on s) × Prints printed s
main-Prints_example =
    main-Prints one_address one_address-ReadsOctets 9 four_by_four printed prints_line

option_loop-StaysConsistent_example : StaysConsistent (option_loop one_address initial four_by_four)
option_loop-StaysConsistent_example =
    option_loop-StaysConsistent one_address one_address-ReadsOctets initial four_by_four
      initial-IsConsistent

abbrev two_addresses : Locals
two_addresses = record initial {
  p = record cleared {
    src_macs =
        0 ∷ 0x11 ∷ 0x22 ∷ 0x33 ∷ 0x44 ∷ 0x55 ∷ 0 ∷ 0x11 ∷ 0x22 ∷ 0x33 ∷ 0x44 ∷ 0x55 ∷ 0 ∷ 0 ∷ 0 ∷ 0
        ∷ 0 ∷ 0 ∷ 0 ∷ 0 ∷ 0 ∷ 0 ∷ 0 ∷ 0 ∷ [];
    n_mac_addr = 2;
  };
  nmac = 2;
}

adds_two : add_macs one_address initial (address ∷ address ∷ []) ≡ some two_addresses
unfolding add_macs
adds_two = refl

add_macs-Places_example : Places one_address initial (address ∷ address ∷ []) two_addresses
add_macs-Places_example =
    add_macs-Places one_address one_address-ReadsOctets initial (address ∷ address ∷ [])
      two_addresses initial-IsConsistent adds_two

three_bytes : All IsByte (0x4d ∷ 0x61 ∷ 0x6e ∷ 0xff ∷ [])
three_bytes = (omega arith, (omega arith, (omega arith, (omega arith, tt))))

decode-encode_example :
    decode (encode (0x4d ∷ 0x61 ∷ 0x6e ∷ 0xff ∷ [])) ≡ some (0x4d ∷ 0x61 ∷ 0x6e ∷ 0xff ∷ [])
decode-encode_example = decode-encode (0x4d ∷ 0x61 ∷ 0x6e ∷ 0xff ∷ []) three_bytes

countbit_step : countbit 0xff ≡ 0xff % 2 + countbit (0xff / 2)
countbit_step = countbit_lem 0xff (omega arith)
