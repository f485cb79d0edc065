-- ===== src/Bpf/Loads.antt =====
-- The loads of `bpf_filter` (generic/net/bpf_filter.c) from a packet in one buffer.
use anp.Prelude.{
  ℕ, zero, suc, ◌+◌, ◌*◌, ◌^◌, ◌<◌, ◌≡◌, ap, List, [], ◌∷◌, arith, leb, length, some, get_elem?,
  get_elem?_inside, take, drop, if◌then◌else◌,
}
use anp.Bpf.Insn.{Size, word, half, byte}
use anp.Bpf.Packet.{flat, value, reject, load, past_end, flat_read, extract_long, extract_short}

abbrev pub width : Size → ℕ
width word = 4
width half = 2
width byte = 1

-- The number that bytes in network order stand for.
abbrev pub big_endian : ℕ → List ℕ → ℕ
big_endian acc [] = acc
big_endian acc (b ∷ bs) = big_endian (acc * 256 + b) bs

drop_step : (p : List ℕ) (k x : ℕ) → get_elem? p k ≡ some x → drop k p ≡ x ∷ drop (k + 1) p
drop_step [] k x e = absurd cc
drop_step (y ∷ p) zero x e = let s : y ≡ x = cc in rw s
drop_step (y ∷ p) (suc k) x e =
    let n : suc k + 1 ≡ suc (k + 1) = omega arith in rw n (drop_step p k x e)

flat_read-value :
    (s : Size) (p : List ℕ) (k : ℕ)
    → k + width s < length p + 1
    → flat_read s p k ≡ value (big_endian 0 (take (width s) (drop k p)))
unfolding flat_read extract_long extract_short
flat_read-value byte p k h =
    let (x, ex) = get_elem?_inside p k (omega arith) in
    rw (ex, drop_step p k x ex) (ap value (omega arith))
flat_read-value half p k h =
    let (x, ex) = get_elem?_inside p k (omega arith) in
    let (y, ey) = get_elem?_inside p (k + 1) (omega arith) in
    rw (ex, ey, drop_step p k x ex, drop_step p (k + 1) y ey) (ap value (omega arith))
flat_read-value word p k h =
    let (x, ex) = get_elem?_inside p k (omega arith) in
    let (y, ey) = get_elem?_inside p (k + 1) (omega arith) in
    let (z, ez) = get_elem?_inside p (k + 2) (omega arith) in
    let (w, ew) = get_elem?_inside p (k + 3) (omega arith) in
    let two : k + 1 + 1 ≡ k + 2 = omega arith in
    let three : k + 2 + 1 ≡ k + 3 = omega arith in
    rw
      (
        ex,
        ey,
        ez,
        ew,
        drop_step p k x ex,
        drop_step p (k + 1) y ey,
        two,
        drop_step p (k + 2) z ez,
        three,
        drop_step p (k + 3) w ew,
      )
      (ap value (omega arith))

-- A load at an offset that does not wrap gives the number that the bytes there stand for, in
-- network order, when they all lie in the buffer, and rejects the packet otherwise. It never reads
-- outside the buffer.
pub load-flat :
    (s : Size) (p : List ℕ) (k : ℕ)
    → 0 < length p
    → length p < 2 ^ 31
    → k + 4 < 2 ^ 32
    → load s (flat p) k ≡ (
        if leb (k + width s) (length p)
        then value (big_endian 0 (take (width s) (drop k p)))
        else reject)
unfolding load past_end
load-flat s [] k ne small nowrap = absurd (omega arith)
load-flat word (b ∷ p) k ne small nowrap = ground (arith, flat_read-value word (b ∷ p) k)
load-flat half (b ∷ p) k ne small nowrap = ground (arith, flat_read-value half (b ∷ p) k)
load-flat byte (b ∷ p) k ne small nowrap = ground (arith, flat_read-value byte (b ∷ p) k)
