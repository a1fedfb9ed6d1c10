-- ===== src/Queue/Delivery.antt =====
-- The recent events of src/collector/event_queue.rs: their invariant, and the place of a key.
use evm_dex_pool.Base.{
  ℕ, suc, ◌≤◌, ◌<◌, max, true, false, leb, List, [], ◌∷◌, ◌++◌, length, length-append, ◌≡◌, refl,
  ap, sym, subst, ◌∙◌, arith, Bool-cases, inl, inr, leb→le, leb-false→lt,
}
use evm_dex_pool.Queue.{EventQueue, Log, evict, make_room, new}
use evm_dex_pool.Queue.RecentMap
use evm_dex_pool.Queue.RecentMap.{
  Key, key_eq, key_eq_refl, keys, known, known-append, Distinct, Distinct-append, contains_key-keys,
  insert-keys, remove-first, keys-length,
}

-- The order queue lists the keys of the map, each once, and there are at most `max_events` of
-- them, or one.
pub record IsTracked (q : EventQueue) : Type 0 where
  pub order : keys q.recent_events ≡ q.event_order
  pub distinct : Distinct q.event_order
  pub bounded : length q.event_order ≤ max 1 q.max_events

-- At most `n` keys follow the key in the order queue.
pub data Within (n : ℕ) (key : Key) : List Key → Type 0 where
  here : (ks : List Key) → length ks ≤ n → Within n key (key ∷ ks)
  there : (k : Key) (ks : List Key) → Within n key ks → Within n key (k ∷ ks)

pub Within-append :
    (n : ℕ) (key k : Key) (ks : List Key) → Within n key ks → Within (suc n) key (ks ++ (k ∷ []))
Within-append n key k _ (here ks le) =
    here (ks ++ (k ∷ [])) (omega (arith, length-append ks (k ∷ [])))
Within-append n key k _ (there j ks w) = there j (ks ++ (k ∷ [])) (Within-append n key k ks w)

pub Within-last : (key : Key) (ks : List Key) → Within 0 key (ks ++ (key ∷ []))
Within-last key [] = here [] (omega arith)
Within-last key (k ∷ ks) = there k (ks ++ (key ∷ [])) (Within-last key ks)

pub Within-more : (n m : ℕ) (key : Key) (ks : List Key) → n ≤ m → Within n key ks → Within m key ks
Within-more n m key _ le (here ks l) = here ks (omega arith)
Within-more n m key _ le (there k ks w) = there k ks (Within-more n m key ks le w)

Within-tail :
    (n : ℕ) (key k : Key) (ks : List Key) → n < length ks → Within n key (k ∷ ks) → Within n key ks
Within-tail n key k ks long (here _ le) = absurd (omega arith)
Within-tail n key k ks long (there _ _ w) = w

pub Within-known : (n : ℕ) (key : Key) (ks : List Key) → Within n key ks → known key ks ≡ true
Within-known n key _ (here ks le) = rw (key_eq_refl key) refl
Within-known n key _ (there k ks w) = ground (arith, Within-known n key ks w)

module _ (q : EventQueue) (t : IsTracked q) where
  -- What the eviction leaves: room for one more, and the rest of the order.
  pub data Room : EventQueue → Type 0 where
    kept : length q.event_order < q.max_events → Room q
    empty : q.event_order ≡ [] → Room q
    evicted :
        (r : EventQueue) (old : Key) (ks : List Key)
        → q.event_order ≡ old ∷ ks
        → q.max_events ≤ length q.event_order
        → keys r.recent_events ≡ ks
        → r.event_order ≡ ks
        → r.max_events ≡ q.max_events
        → r.sent ≡ q.sent
        → Room r

  recent_length : length q.recent_events ≡ length q.event_order
  recent_length = sym (keys-length q.recent_events) ∙ ap length t.order

  evict-Room :
      q.max_events ≤ length q.event_order → (ks : List Key) → q.event_order ≡ ks → Room (evict q ks)
  unfolding evict
  evict-Room full [] e = empty e
  evict-Room full (old ∷ ks) e =
      evicted _ old ks e full (remove-first old ks q.recent_events (t.order ∙ e)) refl refl refl

  pub make_room-Room : Room (make_room q)
  unfolding make_room
  make_room-Room = elim (Bool-cases (leb q.max_events (length q.recent_events))) [
    | inl full ↦ rw full (
        evict-Room (omega (arith, leb→le q.max_events (length q.recent_events) full, recent_length))
          q.event_order refl)
    | inr spare ↦ rw spare (
        kept
          (omega (arith, leb-false→lt q.max_events (length q.recent_events) spare, recent_length)))
  ]

  -- What is left has room for a new key.
  pub record IsOpen (key : Key) (r : EventQueue) : Type 0 where
    pub order : keys r.recent_events ≡ r.event_order
    pub distinct : Distinct r.event_order
    pub unknown : known key r.event_order ≡ false
    pub spare : suc (length r.event_order) ≤ max 1 q.max_events
    pub limit : r.max_events ≡ q.max_events

  pub Room-IsOpen :
      (key : Key) (r : EventQueue) → known key q.event_order ≡ false → Room r → IsOpen key r
  Room-IsOpen key _ new (kept less) = record {
    order = t.order;
    distinct = t.distinct;
    unknown = new;
    spare = omega arith;
    limit = refl;
  }
  Room-IsOpen key _ new (empty none_left) = record {
    order = t.order;
    distinct = t.distinct;
    unknown = new;
    spare = omega (arith, ap length none_left);
    limit = refl;
  }
  Room-IsOpen key _ new (evicted r old ks e full order order' limit sent) =
      let distinct : Distinct (old ∷ ks) = subst Distinct e t.distinct in
      let unknown : known key (old ∷ ks) ≡ false = subst (λ l. known key l ≡ false) e new in
      record {
        order = order ∙ sym order';
        distinct = subst Distinct (sym order') distinct.1;
        unknown = subst (λ l. known key l ≡ false) (sym order') (ground arith);
        spare = omega (arith, t.bounded, ap length e, ap length order');
        limit = limit;
      }

  -- A new key joins the order, behind all the others.
  abbrev pub joined : Key → Log → EventQueue → EventQueue
  joined key event r = record r {
    recent_events = RecentMap.insert key event r.recent_events;
    event_order = r.event_order ++ (key ∷ []);
  }

  pub joined-IsTracked :
      (key : Key) (event : Log) (r : EventQueue) → IsOpen key r → IsTracked (joined key event r)
  joined-IsTracked key event r o = record {
    order =
        insert-keys key event r.recent_events (rw o.order o.unknown)
        ∙ ap (λ l. l ++ (key ∷ [])) o.order;
    distinct = Distinct-append key r.event_order o.unknown o.distinct;
    bounded = omega (arith, length-append r.event_order (key ∷ []), o.spare, o.limit);
  }

  -- A key that fewer than `max_events - 1` others follow is not the one to go.
  pub Room-Within :
      (n : ℕ) (key : Key) (r : EventQueue)
      → suc n < q.max_events
      → Within n key q.event_order
      → Room r
      → Within n key r.event_order
  Room-Within n key _ less w (kept _) = w
  Room-Within n key _ less w (empty _) = w
  Room-Within n key _ less w (evicted r old ks e full order order' limit sent) =
      subst (Within n key) (sym order')
        (Within-tail n key old ks (omega (arith, ap length e)) (subst (Within n key) e w))
