-- ===== src/Crypto/NonceSession/Sending.antt =====
-- The nonces that one side of a session uses.
use Prim.Native.Nat.{min}
use fyles_release.Base.{
  ℕ, zero, suc, ◌+◌, ◌-◌, ◌≤◌, ◌<◌, ◌≡◌, ◌≢◌, refl, if◌then◌else◌, arith, List, [], ◌∷◌, ℕ_discrete,
  ap, ◌∙◌,
}
use fyles_release.Crypto.NonceSession.{
  NonceGeneratorValidator, generated, nonce_space_exhausted, get_next_send_nonce, u64_half,
}

module _ {T : Type 0} where
  -- The nonces of `n` calls, in order.
  pub send_many : ℕ → NonceGeneratorValidator T → List ℕ
  send_many zero g = []
  send_many (suc n) g =
      let (sent, g') = get_next_send_nonce g in
      let rest = send_many n g' in
      elim sent [ generated nonce ↦ nonce ∷ rest | nonce_space_exhausted ↦ rest ]

  -- The first nonce of a side.
  abbrev pub base : NonceGeneratorValidator T → ℕ
  base g = if g.is_initiator_session then 0 else u64_half

-- `count` numbers from `first` on.
abbrev pub consecutive : ℕ → ℕ → List ℕ
consecutive first zero = []
consecutive first (suc count) = first ∷ consecutive (first + 1) count

consecutive-eq :
    (first first' count count' : ℕ)
    → first ≡ first'
    → count ≡ count'
    → consecutive first count ≡ consecutive first' count'
consecutive-eq first first' count count' e f = rw (e, f)

-- Every number of the list lies from `lo` on and below `hi`.
abbrev pub Between : ℕ → ℕ → List ℕ → Type 0
Between lo hi [] = Unit {0}
Between lo hi (x ∷ xs) = (lo ≤ x) × (x < hi) × Between lo hi xs

consecutive-Between :
    (lo hi first count : ℕ)
    → lo ≤ first
    → first + count ≤ hi
    → Between lo hi (consecutive first count)
consecutive-Between lo hi first zero l m = tt
consecutive-Between lo hi first (suc count) l m =
    (l, omega arith, consecutive-Between lo hi (first + 1) count (omega arith) (omega arith))

module _ {T : Type 0} where
  exhausted :
      (n : ℕ) (g : NonceGeneratorValidator T) → g.used_nonce_counter ≡ u64_half → send_many n g ≡ []
  unfolding send_many get_next_send_nonce
  exhausted zero g e = refl
  exhausted (suc n) g e = ground (arith, exhausted n g e)

  abbrev advanced : NonceGeneratorValidator T → NonceGeneratorValidator T
  advanced g = record g { used_nonce_counter = g.used_nonce_counter + 1 }

  send_many-suc :
      (n : ℕ) (g : NonceGeneratorValidator T)
      → g.used_nonce_counter ≢ u64_half
      → send_many (suc n) g ≡ (base g + g.used_nonce_counter) ∷ send_many n (advanced g)
  unfolding send_many get_next_send_nonce
  send_many-suc n g d = ground arith

  -- N calls for a send nonce, from a counter within its half of the space, give consecutive nonces
  -- from the first nonce of the role plus the counter on, as many as asked for or as the half still
  -- holds, and no more.
  pub send_many_lem :
      (n : ℕ) (g : NonceGeneratorValidator T)
      → g.used_nonce_counter ≤ u64_half
      → send_many n g
        ≡ consecutive (base g + g.used_nonce_counter) (min n (u64_half - g.used_nonce_counter))
  unfolding send_many
  send_many_lem zero g h =
      consecutive-eq (base g + g.used_nonce_counter) (base g + g.used_nonce_counter) 0
        (min 0 (u64_half - g.used_nonce_counter)) refl (omega arith)
  send_many_lem (suc n) g h = elim (ℕ_discrete g.used_nonce_counter u64_half) [
    | yes full ↦ rw (exhausted (suc n) g full) (
        consecutive-eq (base g + g.used_nonce_counter) (base g + g.used_nonce_counter) 0
          (min (suc n) (u64_half - g.used_nonce_counter)) refl (omega arith))
    | no room ↦
        let first = base g + g.used_nonce_counter in
        send_many-suc n g room
        ∙ ap (λ r. first ∷ r)
            (send_many_lem n (advanced g) (omega arith)
              ∙ consecutive-eq (base g + (g.used_nonce_counter + 1)) (first + 1)
                  (min n (u64_half - (g.used_nonce_counter + 1)))
                  (min n (u64_half - (g.used_nonce_counter + 1))) (omega arith) refl)
        ∙ consecutive-eq first first (suc (min n (u64_half - (g.used_nonce_counter + 1))))
            (min (suc n) (u64_half - g.used_nonce_counter)) refl (omega arith)
  ]

  -- All nonces that a side generates from a counter within its half of the space lie from the first
  -- nonce of its role on and below that plus the half: the lower half for the initiator, the next
  -- for the responder.
  pub send_many_sides :
      (n : ℕ) (g : NonceGeneratorValidator T)
      → g.used_nonce_counter ≤ u64_half
      → Between (base g) (base g + u64_half) (send_many n g)
  send_many_sides n g h = rw (send_many_lem n g h) (
      consecutive-Between (base g) (base g + u64_half) (base g + g.used_nonce_counter)
        (min n (u64_half - g.used_nonce_counter)) (omega arith) (omega arith))
