-- ===== src/Capture/Log/Main.antt =====
-- What a run of `main` of Csi/csiutil.c gives to `printf`, by the state in which it ends.
use app_loctag.Base.{zero, suc, [], ◌∷◌, ◌++◌, Bytes, codes, pos, negsuc, if◌then◌else◌}
use app_loctag.Capture.Options.{Config}
use app_loctag.Capture.Event.{logs}
use app_loctag.Capture.Log.{string, output}
use app_loctag.Capture.Session.{Phase, State, opening, compiling, installing, ended}

unfoldable pub filter_line : Config → Bytes
unfolding logs
filter_line c =
    if logs c 2 then codes "Filter expression: " ++ (string c.filter_exp ++ 10 ∷ []) else []

unfoldable pub complete_line : Config → Bytes
unfolding logs
complete_line c = if logs c 0 then codes "Capture complete." ++ 10 ∷ [] else []

-- The line with the filter is printed behind `pcap_setfilter`; the status is 2 where a call up to it
-- has failed, and -1 where the output file cannot be opened.
unfoldable pub printed_by : Config → Phase → Bytes → Bytes
unfolding filter_line complete_line
printed_by c (ended (pos zero)) lines = filter_line c ++ (lines ++ complete_line c)
printed_by c (ended (pos (suc status))) lines = []
printed_by c (ended (negsuc status)) lines =
    filter_line c ++ (codes "Fail to save captured packet." ++ 10 ∷ [])
printed_by c opening lines = []
printed_by c compiling lines = []
printed_by c installing lines = []
printed_by c _ lines = filter_line c ++ lines

-- `buff` is what the buffer of `hexDump` holds at first.
unfoldable pub main_output : Config → Bytes → State → Bytes
unfolding printed_by output
main_output c buff s = printed_by c s.phase (output buff s.trace)
