-- ===== src/Updater/Caught.antt =====
-- A run of src/collector/unified_pool_updater.rs against the abstract machine.
use evm_dex_pool.Base.{
  ℕ, suc, ◌+◌, ◌^◌, ◌≤◌, ◌<◌, Bool, List, [], ◌∷◌, ◌++◌, All, ◌≡◌, refl, ap, sym, subst, ◌∙◌, ◌⊎◌,
  Option, none, some, arith, Returns,
}
use evm_dex_pool.BTreeMap.{BTreeMap}
use evm_dex_pool.Chain.{Log}
use evm_dex_pool.Registry.{PoolInterface, PoolRegistry, get_pool, set_last_processed_block}
use evm_dex_pool.Timestamps.{enrich_if_lb_pools_present}
use evm_dex_pool.Processor.{EventProcessor}
use evm_dex_pool.Processor.Groups.{logs_of, IsMined, AreMined-HaveHash}
use evm_dex_pool.Processor.Sent.{logs_of-append}
use evm_dex_pool.Processor.Apply.{updated, after_logs, IsApplied, apply_events-IsApplied}
use evm_dex_pool.Processor.Confirmed.{process_confirmed-IsProcessed}
use evm_dex_pool.Processor.Pending.{process_pending-Returns}
use evm_dex_pool.BlockSource.{
  EventBatch, ProcessingMode, apply_only, confirmed_with_swaps, pending, Answers, BlockSource,
}
use evm_dex_pool.Updater.{
  UnifiedPoolUpdater, process, advanced, handle_batch, updater_turn, started, new, start,
}
use evm_dex_pool.Updater.Contract.{
  IsSound, IsTurn, waits, speculates, confirms, IsContiguous, Confirmed, finished, waited, moved,
  enrich-AreMined,
}

module _ {P : Type 0} (pools : PoolInterface P) where
  after-append :
      (xs ys : List Log) (pool : P)
      → after_logs pools (xs ++ ys) pool ≡ after_logs pools ys (after_logs pools xs pool)
  after-append [] ys pool = refl
  after-append (x ∷ xs) ys pool = after-append xs ys (pools.apply_log pool x).0

  pub updated-append :
      (a : ℕ) (xs ys : List Log) (o : Option P)
      → updated pools (logs_of a (xs ++ ys)) o
        ≡ updated pools (logs_of a ys) (updated pools (logs_of a xs) o)
  updated-append a xs ys none = refl
  updated-append a xs ys (some pool) =
      rw (logs_of-append a xs ys) (ap some (after-append (logs_of a xs) (logs_of a ys) pool))

  pub updated_nil : (o : Option P) → o ≡ updated pools [] o
  updated_nil none = refl
  updated_nil (some pool) = refl

  -- A confirmed batch of mined logs is applied.
  process-IsApplied :
      (self : EventProcessor) (r : PoolRegistry P) (mode : ProcessingMode) (events : List Log)
      → (mode ≡ apply_only) ⊎ (mode ≡ confirmed_with_swaps)
      → All IsMined events
      → Returns
          (process pools self r mode events)
          (λ result. IsApplied pools r (λ a. logs_of a events) result.0)
  unfolding process
  process-IsApplied self r apply_only events m mined =
      let (r', e, t) = apply_events-IsApplied pools r events (AreMined-HaveHash events mined) in
      rw e ((r', []), refl, t)
  process-IsApplied self r confirmed_with_swaps events m mined =
      let ((r', sent), e, t) = process_confirmed-IsProcessed pools self r events mined in
      ((r', sent), e, t.0)
  process-IsApplied self r pending events m mined = absurd (ground arith)

  -- The pending block leaves the registry as it is.
  process-pending :
      (self : EventProcessor) (r : PoolRegistry P) (events : List Log)
      → All IsMined events
      → Returns (process pools self r pending events) (λ result. result.0 ≡ r)
  unfolding process
  process-pending self r events mined =
      let ((clones, sent), e, _) = process_pending-Returns pools self r events mined in
      rw e ((r, sent), refl, refl)

  module _ {S : Type 0} (max_blocks : ℕ) where
    -- What a turn of the updater does to the registry: nothing, or the next blocks are applied.
    data Turned (u : UnifiedPoolUpdater P S) (a : Answers) (u' : UnifiedPoolUpdater P S)
        : Type 0 where
      same : u'.pool_registry ≡ u.pool_registry → Turned u a u'
      applied :
          (end : ℕ) (lb : List ℕ) (known : BTreeMap ℕ)
          → u.pool_registry.last_processed_block < end
          → end ≤ u.pool_registry.last_processed_block + max_blocks
          → u'.pool_registry.last_processed_block ≡ end
          → ((x : ℕ)
              → get_pool u'.pool_registry x
                ≡ updated pools
                    (logs_of x (
                      enrich_if_lb_pools_present a.header lb
                        (a.logs (suc u.pool_registry.last_processed_block) end)
                        known))
                    (get_pool u.pool_registry x))
          → Turned u a u'

    -- The run of the abstract machine behind a run, and the pools after its logs.
    pub record CaughtUp (u : UnifiedPoolUpdater P S) (answers : List Answers)
        (u' : UnifiedPoolUpdater P S) : Type 0 where
      pub logs : List Log
      pub machine :
          Confirmed max_blocks u.pool_registry.last_processed_block answers
            u'.pool_registry.last_processed_block logs
      pub pools_are :
          (x : ℕ)
          → get_pool u'.pool_registry x
            ≡ updated pools (logs_of x logs) (get_pool u.pool_registry x)

    step-CaughtUp :
        (u u' u'' : UnifiedPoolUpdater P S) (a : Answers) (answers : List Answers)
        → Turned u a u'
        → CaughtUp u' answers u''
        → CaughtUp u (a ∷ answers) u''
    step-CaughtUp u u' u'' a answers (same e) up = record {
      logs = up.logs;
      machine = waited _ _ a answers up.logs (
          subst
            (λ (q : PoolRegistry P).
              Confirmed max_blocks q.last_processed_block answers
                u''.pool_registry.last_processed_block up.logs)
            e up.machine);
      pools_are = λ x.
          up.pools_are x
          ∙ ap (λ (q : PoolRegistry P). updated pools (logs_of x up.logs) (get_pool q x)) e;
    }
    step-CaughtUp u u' u'' a answers (applied end lb known lt le cursor are) up =
        let events =
          enrich_if_lb_pools_present a.header lb
            (a.logs (suc u.pool_registry.last_processed_block) end) known in
        record {
          logs = events ++ up.logs;
          machine = moved _ end _ a answers up.logs lb known lt le (
              subst
                (λ k. Confirmed max_blocks k answers u''.pool_registry.last_processed_block up.logs)
                cursor up.machine);
          pools_are = λ x.
              up.pools_are x
              ∙ ap (updated pools (logs_of x up.logs)) (are x)
              ∙ sym (updated-append x events up.logs (get_pool u.pool_registry x));
        }

  module _ {S : Type 0} (max_blocks : ℕ) (source : BlockSource P S) (fresh : S)
      (c : IsContiguous max_blocks source fresh) where
    -- The updater's cursor is where its source has it, and has room for one more block.
    pub record IsAt (u : UnifiedPoolUpdater P S) : Type 0 where
      pub source_at : c.Inv u.pool_registry.last_processed_block u.source
      pub room : u.pool_registry.last_processed_block + 1 < 2 ^ 64

    handle-Turned :
        (u : UnifiedPoolUpdater P S) (a : Answers) (result : S × Option EventBatch)
        → IsSound max_blocks a
        → IsAt u
        → IsTurn max_blocks u.pool_registry.last_processed_block a c.Inv result
        → Returns
            (handle_batch pools source u result)
            (λ out. IsAt out.0 × Turned max_blocks u a out.0)
    unfolding handle_batch advanced get_pool set_last_processed_block
    handle-Turned u a _ sound at (waits s inv) =
        ((_, []), refl, (record { source_at = inv; room = at.room }, same refl))
    handle-Turned u a _ sound at (speculates s events inv mined) =
        let ((r, sent), e, t) = process-pending u.event_processor u.pool_registry events mined in
        rw e (
          (_, sent),
          refl,
          (
            record {
              source_at =
                  subst (λ (q : PoolRegistry P). c.Inv q.last_processed_block s) (sym t) inv;
              room =
                  subst (λ (q : PoolRegistry P). q.last_processed_block + 1 < 2 ^ 64) (sym t)
                    at.room;
            },
            same t,
          ),
        )
    handle-Turned u a _ sound at (confirms s end mode lb known inv lt le room m) =
        let events =
          enrich_if_lb_pools_present a.header lb
            (a.logs (suc u.pool_registry.last_processed_block) end) known in
        let ((r, sent), e, t) = process-IsApplied u.event_processor u.pool_registry mode events m (
          enrich-AreMined a.header lb _ known
            (sound.mined (suc u.pool_registry.last_processed_block) end)) in
        rw e (
          (_, sent),
          refl,
          (record { source_at = inv; room = room }, applied end lb known lt le refl t.pools_are),
        )

    updater_turn-Turned :
        (u : UnifiedPoolUpdater P S) (a : Answers)
        → IsSound max_blocks a
        → IsAt u
        → Returns (updater_turn pools source u a) (λ out. IsAt out.0 × Turned max_blocks u a out.0)
    unfolding updater_turn
    updater_turn-Turned u a sound at =
        let (result, e, t) = c.turn_is u.pool_registry a u.source sound at.room at.source_at in
        rw e (handle-Turned u a result sound at t)

    -- Every run of sound answers goes through, and the abstract machine has a run that it follows.
    start-CaughtUp :
        (answers : List Answers) (u : UnifiedPoolUpdater P S)
        → All (IsSound max_blocks) answers
        → IsAt u
        → Returns (start pools source u answers) (λ out. CaughtUp max_blocks u answers out.0)
    unfolding start
    start-CaughtUp [] u sound at = (
      (u, []),
      refl,
      record {
        logs = [];
        machine = finished u.pool_registry.last_processed_block;
        pools_are = λ x. updated_nil (get_pool u.pool_registry x);
      },
    )
    start-CaughtUp (a ∷ answers) u (s, sound) at =
        let ((u', sent), e, (at', t)) = updater_turn-Turned u a s at in
        let ((u'', more), e', up) = start-CaughtUp answers u' sound at' in
        rw (e, e') ((u'', sent ++ more), refl, step-CaughtUp max_blocks u u' u'' a answers t up)

    -- The same from `new` on.
    pub new-CaughtUp :
        (r : PoolRegistry P) (tx : Bool) (start_block : ℕ) (answers : List Answers)
        → All (IsSound max_blocks) answers
        → (started r start_block).last_processed_block + 1 < 2 ^ 64
        → let u = new r fresh tx start_block in
          Returns (start pools source u answers) (λ out. CaughtUp max_blocks u answers out.0)
    unfolding new
    new-CaughtUp r tx start_block answers sound room =
        start-CaughtUp answers (new r fresh tx start_block) sound (record {
          source_at = c.fresh_at (started r start_block).last_processed_block room;
          room = room;
        })
