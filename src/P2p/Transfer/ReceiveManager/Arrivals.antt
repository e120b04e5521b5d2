-- ===== src/P2p/Transfer/ReceiveManager/Arrivals.antt =====
-- `ReceiveManager::store` over all chunks of a transfer, in the order in which they arrive.
use mathlib.Core.Bool.{false≢true}
use fyles_release.Base.{
  ℕ, ◌+◌, ◌≤◌, ◌<◌, ◌≡◌, refl, sym, ap, ◌∙◌, Bool, true, false, Option, none, some, List, [], ◌∷◌,
  ◌++◌, any, arith, dec_lt, ℕ_discrete, ◌≢◌, ◌==◌,
}
use fyles_release.Base.Totals.{joined}
use fyles_release.Base.Slots.{mark}
use fyles_release.P2p.Types.{Bytes, parallel_chunks, u32_mod, u64_mod}
use fyles_release.P2p.Transfer.ReceiveManager.{
  ReceiveManager, AppendApi, ReceiverRes, received, protocol_violation, io_error, store, new,
}
use fyles_release.P2p.Transfer.ReceiveManager.Window.{numbered}
use fyles_release.P2p.Transfer.ReceiveManager.Drain.{Appends, Tracks, bytes_to}
use fyles_release.P2p.Transfer.ReceiveManager.Order.{store_lem, store_ahead, all_arrived}
use fyles_release.P2p.Transfer.ReceiveManager.Restart.{nothing, new-Tracks}

-- All chunks with the given numbers, one call of `store` for each, up to one that is not taken.
abbrev pub go_on :
    {F D : Type 0}
    → Option (ReceiverRes × ReceiveManager F D)
    → (ReceiveManager F D → Option (ReceiverRes × ReceiveManager F D))
    → Option (ReceiverRes × ReceiveManager F D)
go_on none next = none
go_on (some (received, m)) next = next m
go_on (some (protocol_violation, m)) next = some (protocol_violation, m)
go_on (some (io_error, m)) next = some (io_error, m)

unfoldable pub store_all :
    {F D : Type 0}
    → AppendApi F
    → ℕ
    → (ℕ → Bytes)
    → List ℕ
    → ReceiveManager F D
    → Option (ReceiverRes × ReceiveManager F D)
store_all api transfer content [] m = some (received, m)
store_all api transfer content (i ∷ is) m =
    go_on (store api m (numbered transfer content i)) (λ m'. store_all api transfer content is m')

-- The set with all numbers of a list.
abbrev pub mark_all : (ℕ → Bool) → List ℕ → ℕ → Bool
mark_all got [] = got
mark_all got (i ∷ is) = mark_all (mark got i) is

-- All numbers are below a bound.
abbrev pub Below : ℕ → List ℕ → Type 0
Below count [] = Unit {0}
Below count (i ∷ is) = (i < count) × Below count is

mark_all-above :
    (got : ℕ → Bool) (count : ℕ) (is : List ℕ)
    → ((i : ℕ) → count ≤ i → got i ≡ false)
    → Below count is
    → (i : ℕ) → count ≤ i
    → mark_all got is i ≡ false
mark_all-above got count [] h b = h
mark_all-above got count (j ∷ is) h (l, b) =
    mark_all-above (mark got j) count is (λ i k. ground (arith, h i k)) b

mark_all-old : (got : ℕ → Bool) (is : List ℕ) (i : ℕ) → got i ≡ true → mark_all got is i ≡ true
mark_all-old got [] i h = h
mark_all-old got (j ∷ is) i h = mark_all-old (mark got j) is i (ground (arith, h))

mark_all-any :
    (got : ℕ → Bool) (is : List ℕ) (i : ℕ) → any (λ j. j == i) is ≡ true → mark_all got is i ≡ true
mark_all-any got [] i h = absurd (false≢true h)
mark_all-any got (j ∷ is) i h = elim (ℕ_discrete j i) [
  | yes q ↦ mark_all-old (mark got j) is i (ground (arith, q))
  | no d ↦ mark_all-any (mark got j) is i (ground (arith, h, d))
]

module _ {F D : Type 0} (api : AppendApi F) (disk : Appends api) (transfer : ℕ)
    (content : ℕ → Bytes) (start : ℕ) (already : Bytes) (count declared : ℕ)
    (fits : bytes_to content start count ≤ declared) (small : declared < u64_mod)
    (few : count + 8 < u32_mod) where
  store_all-Tracks :
      (is : List ℕ) (got : ℕ → Bool) (m m' : ReceiveManager F D)
      → Below count is
      → ((i : ℕ) → count ≤ i → got i ≡ false)
      → Tracks api disk transfer content start already got m
      → m.declared_file_size_bytes ≡ declared
      → store_all api transfer content is m ≡ some (received, m')
      → Tracks api disk transfer content start already (mark_all got is) m'
  unfolding store_all
  store_all-Tracks [] got m m' b h k d e = let same : m ≡ m' = ground (arith, e) in rw (← same) k
  store_all-Tracks (i ∷ is) got m m' (l, b) h k d e =
      elim (dec_lt i (m.earliest_not_received + parallel_chunks)) [
        | yes p ↦
            let (m1, s, k1, d1) =
              store_lem api disk transfer content start already got count m k i h
                (omega (arith, fits, d)) (omega (arith, small, d)) few l p in
            store_all-Tracks is (mark got i) m1 m' b (λ j q. ground (arith, h j q)) k1 (d1 ∙ d)
              (sym (ap (λ o. go_on o (λ x. store_all api transfer content is x)) s) ∙ e)
        | no p ↦
            let s =
              store_ahead api disk transfer content start already got count m k i h
                (omega (arith, fits, d)) (omega (arith, small, d)) few (omega arith) in
            absurd (
              violated_not_received m m'
                (sym (ap (λ o. go_on o (λ x. store_all api transfer content is x)) s) ∙ e))
      ]
    where
      violated_not_received :
          (m m' : ReceiveManager F D)
          → ◌≢◌ {A = Option (ReceiverRes × ReceiveManager F D)}
              (some (protocol_violation, m))
              (some (received, m'))
      violated_not_received m m' q = ground (arith, q)

  -- For a transfer of count chunks that fits in its declared size, on a disk that does not fail,
  -- from a new manager: if its chunks arrive in any order and some of them more than once, none is
  -- missing, and every call of store took its chunk, then the file holds the whole content behind
  -- what it held before, in order, and the progress is the number of its bytes.
  pub arrivals_complete :
      (drive : D) (file : F) (name id filerequest : ℕ) (contact : Option ℕ) (started : ℕ)
      (is : List ℕ) (m' : ReceiveManager F D)
      → start ≡ 0
      → disk.contents file ≡ already
      → Below count is
      → ((i : ℕ) → i < count → any (λ j. j == i) is ≡ true)
      → store_all api transfer content is
          (new drive file declared name id filerequest contact started)
        ≡ some (received, m')
      → (m'.byte_progress ≡ bytes_to content start count)
        × (disk.contents m'.file ≡ already ++ joined content count)
  unfolding new
  arrivals_complete drive file name id filerequest contact started is m' z c b all e =
      let first = new {D = D} drive file declared name id filerequest contact started in
      let fresh : Tracks api disk transfer content start already nothing first =
        rw (z, ← c)
          (new-Tracks api disk transfer content drive file declared name id filerequest contact
            started) in
      let k = store_all-Tracks is nothing first m' b (λ i h. refl) fresh refl e in
      let (n, p, w) =
        all_arrived api disk transfer content start already (mark_all nothing is) count m' k
          (λ i l. mark_all-any nothing is i (all i l))
          (mark_all-above nothing count is (λ i h. refl) b) in
      (p, w)
