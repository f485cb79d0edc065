-- ===== src/Mbuf/Chain.antt =====
-- `struct mbuf` of generic/sys/mbuf.h, and a chain of mbufs as the list of its members.
use anp.Prelude.{
  ℕ, ◌+◌, ◌≤◌, ◌≡◌, refl, Bool, true, false, Option, none, some, List, [], ◌∷◌, ◌++◌, arith, length,
  length-append, append_assoc, if◌then◌else◌,
}
use anp.Prelude.Int.{ℤ, pos}

-- `MSIZE`, `MLEN`, `MHLEN` and `MCLBYTES`, with pointers and longs of 4 bytes.
abbrev pub msize : ℕ
msize = 128

abbrev pub mlen : ℕ
mlen = 108

abbrev pub mhlen : ℕ
mhlen = 100

abbrev pub mclbytes : ℕ
mclbytes = 2048

-- External storage: the cluster, and `ext_size`.
pub record Ext : Type 0 where
  pub ext_buf : ℕ
  pub ext_size : ℕ

-- `contents` are the `m_len` bytes at `m_data`, which stands `offset` bytes into the storage. `ext`
-- is there when `M_EXT` is set, and `len` and `rcvif` count when `M_PKTHDR` is set.
pub record Mbuf : Type 0 where
  pub contents : List ℕ
  pub offset : ℕ
  pub ext : Option Ext
  pub pkthdr : Bool
  pub eor : Bool
  pub bcast : Bool
  pub mcast : Bool
  pub kind : ℕ
  pub len : ℤ
  pub rcvif : ℕ

abbrev pub m_len : Mbuf → ℕ
m_len m = length m.contents

abbrev pub is_ext : Mbuf → Bool
is_ext m = elim m.ext [ none ↦ false | some e ↦ true ]

-- The bytes of a chain.
abbrev pub bytes_of : List Mbuf → List ℕ
bytes_of [] = []
bytes_of (m ∷ ms) = m.contents ++ bytes_of ms

abbrev pub total : List Mbuf → ℕ
total [] = 0
total (m ∷ ms) = m_len m + total ms

pub length-bytes_of : (ms : List Mbuf) → length (bytes_of ms) ≡ total ms
length-bytes_of [] = refl
length-bytes_of (m ∷ ms) = omega (arith, length-append m.contents (bytes_of ms), length-bytes_of ms)

pub bytes_of-append : (ms ns : List Mbuf) → bytes_of (ms ++ ns) ≡ bytes_of ms ++ bytes_of ns
bytes_of-append [] ns = refl
bytes_of-append (m ∷ ms) ns = rw (bytes_of-append ms ns, append_assoc)

-- The data of every mbuf lies in its storage.
abbrev pub storage : Mbuf → ℕ
storage m = elim m.ext [ none ↦ mlen | some e ↦ e.ext_size ]

abbrev pub start_of_data : Mbuf → ℕ
start_of_data m = if m.pkthdr then 8 else 0

abbrev pub Fits : List Mbuf → Type 0
Fits [] = Unit
Fits (m ∷ ms) =
    (is_ext m ≡ false → (start_of_data m ≤ m.offset) × (m.offset + m_len m ≤ mlen)) × Fits ms

-- The header of a packet says how long it is.
abbrev pub HeaderAgrees : List Mbuf → Type 0
HeaderAgrees [] = Unit
HeaderAgrees (m ∷ ms) = m.pkthdr ≡ true → m.len ≡ pos (total (m ∷ ms))
