-- ===== src/Inject/Radiotap.antt =====
-- `struct nex_inject_radiotap` of Csi/nex_inject.h and the one value that Csi/injectutil.c has of it.
use app_loctag.Base.{ℕ, ◌/◌, ◌%◌, [], ◌∷◌, ◌++◌, Bytes, bit_or, ◌<<<◌}

pub record InjectRadiotap : Type 0 where
  pub it_version : ℕ
  pub it_pad : ℕ
  pub it_len : ℕ
  pub it_present : ℕ
  pub it_present_nex : ℕ
  pub vendor_oui : ℕ × ℕ × ℕ
  pub vendor_sub_namespace : ℕ
  pub vendor_skip_length : ℕ
  pub pad : ℕ
  pub txdelay : ℕ
  pub txrepetitions_num : ℕ
  pub txrepetitions_period : ℕ
  pub ratespec : ℕ

-- `BIT (x)`.
abbrev bit : ℕ → ℕ
bit x = 1 <<< x

abbrev pub radiotap_size : ℕ
radiotap_size = 36

-- A member that the initializer does not name is 0.
abbrev pub nex_rt : InjectRadiotap
nex_rt = record {
  it_version = 0;
  it_pad = 0;
  it_len = radiotap_size;
  it_present = bit_or (bit 30) (bit 31);
  it_present_nex = bit_or (bit_or (bit 0) (bit 1)) (bit 2);
  vendor_oui = (b'N', b'E', b'X');
  vendor_sub_namespace = 0;
  vendor_skip_length = 18;
  pad = 0;
  txdelay = 0;
  txrepetitions_num = 1;
  txrepetitions_period = 0;
  ratespec = 0xc1000000;
}

abbrev pub le16 : ℕ → Bytes
le16 v = v % 256 ∷ v / 256 % 256 ∷ []

abbrev pub le32 : ℕ → Bytes
le32 v = v % 256 ∷ v / 256 % 256 ∷ v / 65536 % 256 ∷ v / 16777216 % 256 ∷ []

-- The struct in memory: packed, little-endian.
unfoldable pub rt_bytes : InjectRadiotap → Bytes
rt_bytes rt =
    let (n, e, x) = rt.vendor_oui in
    (rt.it_version ∷ rt.it_pad ∷ le16 rt.it_len)
    ++ (le32 rt.it_present
        ++ (le32 rt.it_present_nex
            ++ ((n ∷ e ∷ x ∷ rt.vendor_sub_namespace ∷ le16 rt.vendor_skip_length)
                ++ (le16 rt.pad
                    ++ (le32 rt.txdelay
                        ++ (le32 rt.txrepetitions_num
                            ++ (le32 rt.txrepetitions_period ++ le32 rt.ratespec)))))))
