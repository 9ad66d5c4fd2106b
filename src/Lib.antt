-- ===== src/Lib.antt =====
-- The C core of LocTag: the code under app/src/main/jni/Csi (Csi/ below) that an Android phone with
-- the nexmon firmware uses to configure the extraction of channel state information (CSI), to capture
-- and forward packets, to hand them to the Java application, and to inject frames.
--
-- Parts, and how they interact:
-- * Csi/makecsiparams/bcmwifi_channels.c and .h (Chanspec): a channel is a number of 16 bits, a
--   chanspec. Fields has the macros of the D11AC_IOTYPES format, which is the one that is compiled;
--   Sideband the tables and the arithmetic of control channels; Check wf_chspec_malformed and
--   wf_chspec_valid; Control wf_chspec_ctlchan, wf_chspec_ctlchspec, wf_chspec_primary40_chspec and
--   wf_channel2chspec; Build the macros that make a chanspec of a center channel; Print wf_chspec_ntoa;
--   Parse wf_chspec_aton, with its static pointer in Pair; Frequency the conversions from and to
--   MHz. WellFormed describes the layout of the bits independently of the checks. Legacy is the codec
--   of the other format, which the same file has for a build without D11AC_IOTYPES.
-- * Csi/makecsiparams/makecsiparams.c (CsiParams): its command line becomes a struct of 34 bytes, with
--   a chanspec from wf_chspec_aton, that is printed in base64. Options has a function per option and
--   the loop over them; Program what main does behind the loop; Store the struct and its bytes; Base64
--   the printer, with a decoder of its own in Base64/Decoder.
-- * Csi/nex_csi4339.h, Csi/nex_dot11rt.h and .c (Nexmon): the packed structs that the firmware sends,
--   as reads of memory (Memory), where a read past the end has no result; Dot11Rt/Sent has the frames
--   that the firmware hands over, with all the fields, as bytes.
-- * Csi/JNICsi.c (Jni): the functions that Java calls: buffToCsi4339, buffToDot11Rt, strToChanspec and
--   chanspecToStr; Dot11Rt/Sent has what is read of frames, and Dot11Rt/Injected of those of
--   nex_inject.h.
-- * Csi/csiutil.c (Capture): process_csi, process_dot11rt and got_packet as lists of events, with
--   the text of the printed ones in Log and readers of its lines in Log/Reader, Log/Parts and
--   Log/Address and the lines of a run in Log/Run, and the globals that parse_opt sets. A CSI packet
--   that got_packet forwards is the one that buffToCsi4339 reads; Capture/Csi/Agree relates the two.
--   Capture/Session is main: a step relation on what is open, with the calls of libpcap and the
--   system as choices of the environment, and in Session/Run a function of their answers;
--   Session/Run/Status reads the status of a run as the call that failed first.
--   Capture/Dot11/Agree relates process_dot11rt to buffToDot11Rt, and Capture/Delivery a whole run to what
--   the application reads of its datagrams.
--   Capture/Program is the program from its command line on, as the application runs it;
--   Capture/Options/Laws reads the command line, and Capture/Forward/Snapshot has packets that are
--   longer than what is captured of them.
-- * Csi/injectutil.c and Csi/nex_inject.h (Inject), Csi/mcutils.c (McUtils): the radiotap header,
--   the options that fill it, and the packet that is sent, with a frame that readFile reads; Socket
--   is create_raw_socket, Frames the frames that nex_inject.h has for injection, Inject/Main a run
--   behind the options with its output, and Inject/Command the program from its command line on;
--   hexDump and its buffer of one row; McUtils/Files has writeFile and then readFile.
-- Libc has in Argp how argp calls a parse_opt for the options of its table, and strtoul, strtol, tolower
-- and the numbers that printf and snprintf print, as the sources use them, with the 32-bit long of
-- armeabi, the only ABI that is built. Base has what all of these share.
--
-- Conventions: a function of the source keeps its name in snake_case; unsigned types wrap by the
-- operators u8, u16, u32, sub32; an int is the integer Base.ℤ or, where its bits are used, its 32 bits;
-- `none` is an error or, as said where it is defined, a read or write outside of memory. A C string is
-- the list of its bytes without the NUL.
--
-- Bounds and fuel: the loops over texts and tables are structural. countbit runs on 32 rounds of fuel,
-- enough for the 32 bits of its argument (CsiParams/Store/Laws); the search of wf_channel2chspec runs over
-- its tables. Facts about all chanspecs are checked by evaluation on the well-formed ones of each band
-- and bandwidth. A run of csiutil with a positive number of packets has a bound on its steps, and the
-- function for it is recursive on the packets that arrive.
--
-- Parameters: ether_aton, which is taken to return six octets; the system's open, read and write and
-- its answers to the socket calls, and that it writes a file as POSIX says; BUFSIZ, which cuts what
-- libpcap hands over; libpcap's answers and the packets that it hands over.
-- Not modelled: getopt's and argp's scan of argv; messages to stderr; sleep; most macros of
-- bcmwifi_channels.h, and ip_header and udp_header of nex_inject.h, that no code uses; the
-- radiotap iterator (Csi/radiotap.c), a copy of the radiotap library that nothing
-- calls; libpcap and libargp, which are copies as well; the application in Java.
mod Base
pub mod Libc
pub mod Chanspec
pub mod CsiParams
pub mod Memory
pub mod Nexmon
pub mod Jni
pub mod Capture
pub mod McUtils
pub mod Inject
