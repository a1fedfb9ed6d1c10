-- ===== src/Registry/Topics.antt =====
-- The list of topics of src/registry.rs.
use evm_dex_pool.Base.{
  ℕ, true, ◌||◌, List, [], ◌∷◌, ◌++◌, ◌≡◌, refl, arith, Bool-cases, ==_refl, inl, inr,
}
use evm_dex_pool.Base.Search.{contains, AreDistinct, contains-append, AreDistinct-append}
use evm_dex_pool.Registry.{PoolRegistry, add_new_topics, add_topics}

contains-add :
    (t : ℕ) (known topics : List ℕ)
    → contains t (add_new_topics known topics) ≡ (contains t known || contains t topics)
unfolding contains add_new_topics
contains-add t known [] = ground arith
contains-add t known (x ∷ topics) = ground (
  arith,
  contains-add t known topics,
  contains-add t (known ++ (x ∷ [])) topics,
  contains-append t known (x ∷ []),
)

AreDistinct-add :
    (known topics : List ℕ) → AreDistinct known → AreDistinct (add_new_topics known topics)
unfolding add_new_topics
AreDistinct-add known [] d = d
AreDistinct-add known (t ∷ topics) d = elim (Bool-cases (contains t known)) [
  | inl old ↦ rw old (AreDistinct-add known topics d)
  | inr fresh ↦
      rw fresh (AreDistinct-add (known ++ (t ∷ [])) topics (AreDistinct-append t known d fresh))
]

add_known :
    (known topics : List ℕ)
    → ((t : ℕ) → contains t topics ≡ true → contains t known ≡ true)
    → add_new_topics known topics ≡ known
unfolding add_new_topics contains
add_known known [] all = refl
add_known known (t ∷ topics) all =
    rw (all t (ground (arith, ==_refl t))) (add_known known topics (λ u h. all u (ground arith)))

-- What adding topics comes to.
pub record AreAdded (known topics result : List ℕ) : Type 0 where
  pub distinct : AreDistinct result
  pub exactly : (t : ℕ) → contains t result ≡ (contains t known || contains t topics)
  pub again : add_new_topics result topics ≡ result

-- Adding topics to a list without repetitions gives a list without repetitions that holds exactly
-- the topics that were there or are added, and adding them again changes nothing.
pub add_topics-AreAdded :
    {P : Type 0} (r : PoolRegistry P) (topics : List ℕ)
    → AreDistinct r.topics
    → AreAdded r.topics topics (add_topics r topics).topics
unfolding add_topics
add_topics-AreAdded r topics d = record {
  distinct = AreDistinct-add r.topics topics d;
  exactly = λ t. contains-add t r.topics topics;
  again =
      add_known (add_new_topics r.topics topics) topics
        (λ t h. ground (arith, contains-add t r.topics topics));
}
