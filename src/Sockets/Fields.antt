-- ===== src/Sockets/Fields.antt =====
-- What the writes of the queues of generic/kern/uipc_socket2.c keep of the fields of `struct socket`.
use anp.Prelude.{
  ℕ, ◌≡◌, refl, sym, ap, ◌∙◌, Bool, true, false, not, Option, ◌==◌, Bool-cases, inl, inr, arith,
}
use anp.Sockets.{
  SoState, Socket, Heap, update, link, with_link, set_link, count, with_count, set_count, set_head,
}
use anp.Sockets.Changes.{set_state}

-- A write of one socket that keeps what `f` reads of it keeps it for all.
pub read-update :
    {A : Type 0}
    → (f : Socket → A) (h : Heap) (a : ℕ) (s : Socket) (b : ℕ) → f s ≡ f (h a)
    → f (update h a s b) ≡ f (h b)
read-update f h a s b e = elim (Bool-cases (b == a)) [
  | inl t ↦ let same : b ≡ a = ground arith in rw t (e ∙ ap (λ x. f (h x)) (sym same))
  | inr t ↦ rw t refl
]

pub link-set_link_other :
    (q : Bool) (a b : ℕ) (v : Option ℕ) (h : Heap)
    → link (not q) (set_link q a v h b) ≡ link (not q) (h b)
link-set_link_other true a b v h = read-update (λ s. s.so_q0) h a (with_link true v (h a)) b refl
link-set_link_other false a b v h = read-update (λ s. s.so_q) h a (with_link false v (h a)) b refl

-- The other writes leave the links alone, and the writes of links the other fields.
pub link-set_count :
    (p q : Bool) (a b n : ℕ) (h : Heap) → link p (set_count q a n h b) ≡ link p (h b)
link-set_count p q a b n h = read-update (link p) h a (with_count q n (h a)) b (same p q)
  where
    same : (p q : Bool) → link p (with_count q n (h a)) ≡ link p (h a)
    same true true = refl
    same true false = refl
    same false true = refl
    same false false = refl

pub link-set_head :
    (p : Bool) (a b : ℕ) (v : Option ℕ) (h : Heap) → link p (set_head a v h b) ≡ link p (h b)
link-set_head p a b v h = read-update (link p) h a (record (h a) { so_head = v }) b (same p)
  where
    same : (p : Bool) → link p (record (h a) { so_head = v }) ≡ link p (h a)
    same true = refl
    same false = refl

pub count-set_link :
    (p q : Bool) (a b : ℕ) (v : Option ℕ) (h : Heap) → count p (set_link q a v h b) ≡ count p (h b)
count-set_link p q a b v h = read-update (count p) h a (with_link q v (h a)) b (same p q)
  where
    same : (p q : Bool) → count p (with_link q v (h a)) ≡ count p (h a)
    same true true = refl
    same true false = refl
    same false true = refl
    same false false = refl

pub count-set_head :
    (p : Bool) (a b : ℕ) (v : Option ℕ) (h : Heap) → count p (set_head a v h b) ≡ count p (h b)
count-set_head p a b v h = read-update (count p) h a (record (h a) { so_head = v }) b (same p)
  where
    same : (p : Bool) → count p (record (h a) { so_head = v }) ≡ count p (h a)
    same true = refl
    same false = refl

pub count-set_count_self : (q : Bool) (a n : ℕ) (h : Heap) → count q (set_count q a n h a) ≡ n
count-set_count_self true a n h = ground arith
count-set_count_self false a n h = ground arith

pub count-set_count_other :
    (q : Bool) (a b n : ℕ) (h : Heap) → count (not q) (set_count q a n h b) ≡ count (not q) (h b)
count-set_count_other true a b n h =
    read-update (λ s. s.so_q0len) h a (with_count true n (h a)) b refl
count-set_count_other false a b n h =
    read-update (λ s. s.so_qlen) h a (with_count false n (h a)) b refl

pub so_head-set_link :
    (q : Bool) (a b : ℕ) (v : Option ℕ) (h : Heap) → (set_link q a v h b).so_head ≡ (h b).so_head
so_head-set_link q a b v h = read-update (λ s. s.so_head) h a (with_link q v (h a)) b (same q)
  where
    same : (q : Bool) → (with_link q v (h a)).so_head ≡ (h a).so_head
    same true = refl
    same false = refl

pub so_head-set_count :
    (q : Bool) (a b n : ℕ) (h : Heap) → (set_count q a n h b).so_head ≡ (h b).so_head
so_head-set_count q a b n h = read-update (λ s. s.so_head) h a (with_count q n (h a)) b (same q)
  where
    same : (q : Bool) → (with_count q n (h a)).so_head ≡ (h a).so_head
    same true = refl
    same false = refl

pub so_state-set_link :
    (q : Bool) (a b : ℕ) (v : Option ℕ) (h : Heap) → (set_link q a v h b).so_state ≡ (h b).so_state
so_state-set_link true a b v h = read-update (λ s. s.so_state) h a (with_link true v (h a)) b refl
so_state-set_link false a b v h = read-update (λ s. s.so_state) h a (with_link false v (h a)) b refl

pub so_state-set_count :
    (q : Bool) (a b n : ℕ) (h : Heap) → (set_count q a n h b).so_state ≡ (h b).so_state
so_state-set_count true a b n h = read-update (λ s. s.so_state) h a (with_count true n (h a)) b refl
so_state-set_count false a b n h =
    read-update (λ s. s.so_state) h a (with_count false n (h a)) b refl

pub so_state-set_head :
    (a b : ℕ) (v : Option ℕ) (h : Heap) → (set_head a v h b).so_state ≡ (h b).so_state
so_state-set_head a b v h = read-update (λ s. s.so_state) h a (record (h a) { so_head = v }) b refl

pub link-set_state :
    (p : Bool) (a b : ℕ) (s : SoState) (h : Heap) → link p (set_state a s h b) ≡ link p (h b)
link-set_state true a b s h = read-update (link true) h a (record (h a) { so_state = s }) b refl
link-set_state false a b s h = read-update (link false) h a (record (h a) { so_state = s }) b refl

pub count-set_state :
    (p : Bool) (a b : ℕ) (s : SoState) (h : Heap) → count p (set_state a s h b) ≡ count p (h b)
count-set_state true a b s h = read-update (count true) h a (record (h a) { so_state = s }) b refl
count-set_state false a b s h = read-update (count false) h a (record (h a) { so_state = s }) b refl

pub so_head-set_state :
    (a b : ℕ) (s : SoState) (h : Heap) → (set_state a s h b).so_head ≡ (h b).so_head
so_head-set_state a b s h = read-update (λ x. x.so_head) h a (record (h a) { so_state = s }) b refl

pub so_state-set_state : (a : ℕ) (s : SoState) (h : Heap) → (set_state a s h a).so_state ≡ s
so_state-set_state a s h = let e : (a == a) ≡ true = ground arith in rw e refl
