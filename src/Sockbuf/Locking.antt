-- ===== src/Sockbuf/Locking.antt =====
-- What `sb_lock` of generic/kern/uipc_socket2.c returns, and when.
use anp.Prelude.{
  ℕ, zero, suc, ◌≡◌, ◌≢◌, ◌⊎◌, refl, Bool, true, false, List, [], ◌∷◌, arith, ◌==◌, if◌then◌else◌,
  inl, inr, length, ==_iff,
}
use anp.Sockbuf.Buffer.{SockBuf}
use anp.Sockbuf.Lock.{Sleep, Locking, returned, asleep, sb_lock}

-- The socket buffer that a thread finds after a sleep that it has begun at `sb`.
abbrev pub woken : Sleep → SockBuf → SockBuf
woken s sb = s.meanwhile (record sb { wanted = true })

-- A thread at `sb` has slept `n` times and is at `sb'`, with the sleeps `rest` to come: each time it
-- found the lock held, and the sleep ended without an error.
abbrev pub Slept : ℕ → List Sleep → SockBuf → List Sleep → SockBuf → Type 0
Slept zero sleeps sb rest sb' = (rest ≡ sleeps) × (sb' ≡ sb)
Slept (suc n) [] sb rest sb' = ⊥
Slept (suc n) (s ∷ sleeps) sb rest sb' =
    (sb.locked ≡ true) × (s.error ≡ 0) × Slept n sleeps (woken s sb) rest sb'

-- The thread takes the lock, which is free.
abbrev pub Takes : SockBuf → ℕ → SockBuf → Type 0
Takes sb e sb' = (e ≡ 0) × (sb.locked ≡ false) × (sb' ≡ record sb { locked = true })

-- The lock is held, and the sleep ends in an error.
abbrev pub Fails : List Sleep → SockBuf → ℕ → SockBuf → Type 0
Fails [] sb e sb' = ⊥
Fails (s ∷ rest) sb e sb' = (e ≢ 0) × (sb.locked ≡ true) × (s.error ≡ e) × (sb' ≡ woken s sb)

abbrev pub LocksFree : List Sleep → SockBuf → Locking → Type 0
LocksFree sleeps sb (returned e sb') =
    (n : ℕ) × (rest : List Sleep) × (at : SockBuf) × Slept n sleeps sb rest at
    × (Takes at e sb' ⊎ Fails rest at e sb')
LocksFree sleeps sb asleep =
    (at : SockBuf) × Slept (length sleeps) sleeps sb [] at × (at.locked ≡ true)

LocksFree-later :
    (s : Sleep) (sleeps : List Sleep) (sb : SockBuf) (r : Locking)
    → sb.locked ≡ true
    → s.error ≡ 0
    → LocksFree sleeps (woken s sb) r
    → LocksFree (s ∷ sleeps) sb r
LocksFree-later s sleeps sb (returned e sb') held fine (n, rest, at, k, end) =
    (suc n, rest, at, (held, fine, k), end)
LocksFree-later s sleeps sb asleep held fine (at, k, end) = (at, (held, fine, k), end)

either :
    (sleeps : List Sleep) (sb : SockBuf) (b : Bool) (x y : Locking)
    → (b ≡ true → LocksFree sleeps sb x)
    → (b ≡ false → LocksFree sleeps sb y)
    → LocksFree sleeps sb (if b then x else y)
either sleeps sb true x y f g = f refl
either sleeps sb false x y f g = g refl

-- Whatever the other threads do while a thread sleeps, `sb_lock` returns 0 only at a time when the
-- lock is free: the thread has slept, without an error, each time that it found the lock held, and
-- now sets the lock and changes nothing else. It returns an error only where the lock is held and the
-- sleep ends in that error, and leaves the socket buffer as the other threads have left it. It
-- stays asleep only if the lock is held again after every wakeup.
pub sb_lock-LocksFree :
    (sleeps : List Sleep) (sb : SockBuf) → LocksFree sleeps sb (sb_lock sleeps sb)
unfolding sb_lock
sb_lock-LocksFree [] sb =
    either [] sb sb.locked asleep (returned 0 (record sb { locked = true }))
      (λ held. (sb, (refl, refl), held)) (λ free. (0, [], sb, (refl, refl), inl (refl, free, refl)))
sb_lock-LocksFree (s ∷ sleeps) sb =
    either (s ∷ sleeps) sb sb.locked
      (if s.error == 0 then sb_lock sleeps (woken s sb) else returned s.error (woken s sb))
      (returned 0 (record sb { locked = true }))
      (λ held.
        either (s ∷ sleeps) sb (s.error == 0) (sb_lock sleeps (woken s sb))
          (returned s.error (woken s sb))
          (λ fine.
            LocksFree-later s sleeps sb (sb_lock sleeps (woken s sb)) held
              ((==_iff s.error 0).0 fine) (sb_lock-LocksFree sleeps (woken s sb)))
          (λ failed. (0, s ∷ sleeps, sb, (refl, refl), inr (ground arith, held, refl, refl))))
      (λ free. (0, s ∷ sleeps, sb, (refl, refl), inl (refl, free, refl)))
