-- ===== src/Redis/Subscriber/Unsubscribing.antt =====
-- clients/client.rs: when `Subscriber::unsubscribe` takes a confirmation for good.
use reverse_rewrite.Common.{
  ◌+◌, ◌≡◌, refl, List, [], ◌∷◌, arith, if◌then◌else◌, ◌==◌, length, ◌↔◌, Bool-cases, inl, inr,
}
use reverse_rewrite.Common.Text.{Bytes, codes, bytes_eq}
use reverse_rewrite.Common.Order.{bytes_eq_iff}
use reverse_rewrite.Redis.Frame.{Frames, bulk, array, cons}
use reverse_rewrite.Redis.Client.{answered, to_error}
use reverse_rewrite.Redis.Session.Channels.{occurrences}
use reverse_rewrite.Redis.Subscriber.{retain, leaves}

length-retain :
    (channel : Bytes) (cs : List Bytes)
    → length (retain (bulk channel) cs) + occurrences channel cs ≡ length cs
unfolding retain occurrences
length-retain channel [] = refl
length-retain channel (c ∷ cs) = ground (arith, length-retain channel cs)

occurrences-retain :
    (channel j : Bytes) (cs : List Bytes)
    → occurrences j (retain (bulk channel) cs)
      ≡ (if bytes_eq channel j then 0 else occurrences j cs)
unfolding retain occurrences
occurrences-retain channel j [] = ground arith
occurrences-retain channel j (c ∷ cs) = ground (
  arith,
  occurrences-retain channel j cs,
  bytes_eq_iff channel c,
  bytes_eq_iff channel j,
  bytes_eq_iff j c,
)

module _ (debug : Bytes → Bytes) where
  -- The confirmation for a channel is taken exactly when the subscriber holds the channel once: not
  -- when it never subscribed to it, and not when it subscribed to it twice. In each case no
  -- occurrence of the channel is left, and the other channels stay.
  pub leaves-occurrences :
      (channel : Bytes) (rest : Frames) (subscribed : List Bytes)
      → let left_with =
          leaves debug
            (array (cons (bulk (codes "unsubscribe")) (cons (bulk channel) rest)))
            subscribed in
        ((left_with.0 ≡ answered tt) ↔ (occurrences channel subscribed ≡ 1))
        × ((j : Bytes)
            → occurrences j left_with.1
              ≡ (if bytes_eq channel j then 0 else occurrences j subscribed))
  unfolding leaves to_error
  leaves-occurrences channel rest [] = (
    ((λ e. cc), (λ e. absurd (unfold occurrences in omega (arith, e)))),
    λ j. unfold occurrences in ground arith,
  )
  leaves-occurrences channel rest (c ∷ cs) =
      let total = length-retain channel (c ∷ cs) in
      elim (Bool-cases (length (retain (bulk channel) (c ∷ cs)) == length cs)) [
        | inl one ↦ (
          ((λ e. ground (arith, total, one)), (λ e. ground (arith, one))),
          λ j. ground (arith, occurrences-retain channel j (c ∷ cs)),
        )
        | inr other ↦ (
          ((λ e. ground (arith, e, other)), (λ e. ground (arith, total, other, e))),
          λ j. ground (arith, occurrences-retain channel j (c ∷ cs)),
        )
      ]
