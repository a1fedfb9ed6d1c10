-- ===== src/BlockSource/Websocket/Turns.antt =====
-- The turns of the websocket source of src/collector/block_source.rs.
use evm_dex_pool.Base.{
  ℕ, ◌≤◌, Bool, true, false, if◌then◌else◌, List, [], ◌∷◌, All, ◌≡◌, refl, sym, subst, ◌∙◌, Option,
  none, some, arith, ok, Returns,
}
use evm_dex_pool.Chain.{Log, LogPosition, log_position}
use evm_dex_pool.Registry.{PoolInterface, PoolRegistry, trader_joe_lb, get_addresses_by_type}
use evm_dex_pool.Timestamps.{set_time}
use evm_dex_pool.Timestamps.Laws.{enrich-All}
use evm_dex_pool.Queue.{Gap, drain, take_gaps}
use evm_dex_pool.BlockSource.{EventBatch, Answers}
use evm_dex_pool.BlockSource.Polling.{enriched}
use evm_dex_pool.BlockSource.Settler.{BlockSettler, Settled, add, take_ready}
use evm_dex_pool.BlockSource.Websocket.{
  WebsocketBlockSource, fill_gap, fill_gaps, retain_from, take_in, batch_of, websocket_turn,
}
use evm_dex_pool.BlockSource.Websocket.Gaps.{IsFresh, IsBounded, fetch_gap-IsLost}
use evm_dex_pool.BlockSource.Websocket.Floor.{
  HoldsFresh, add-HoldsFresh, retain_from-IsFresh, IsLost-AreFresh, FreshAnswer,
  take_ready-FreshAnswer,
}

-- What a turn keeps: the floor, that nothing from before it is held, and the blocks that are only
-- to be applied.
pub record KeepsFloor (self next : WebsocketBlockSource) : Type 0 where
  pub floor_is : next.fill_floor ≡ self.fill_floor
  pub span_is : next.max_blocks_per_batch ≡ self.max_blocks_per_batch
  pub fresh : HoldsFresh self.fill_floor next.settler
  pub through_grows : self.apply_only_through ≤ next.apply_only_through

abbrev AreBounded : WebsocketBlockSource → List Gap → Type 0
AreBounded self gaps = All (IsBounded self.max_blocks_per_batch self.fill_floor) gaps

fill_gap-KeepsFloor :
    (self : WebsocketBlockSource) (logs : ℕ → ℕ → List Log) (now : ℕ) (gap : Gap)
    → IsBounded self.max_blocks_per_batch self.fill_floor gap
    → HoldsFresh self.fill_floor self.settler
    → Returns (fill_gap self logs now gap) (KeepsFloor self)
unfolding fill_gap
fill_gap-KeepsFloor self logs now gap b h =
    let ((q, missed), e, lost) = fetch_gap-IsLost self logs gap b in
    rw e (
      _,
      refl,
      record {
        floor_is = refl;
        span_is = refl;
        fresh =
            add-HoldsFresh self.fill_floor missed self.settler now
              (IsLost-AreFresh self.fill_floor gap missed lost) h;
        through_grows = omega arith;
      },
    )

fill_if-KeepsFloor :
    (self : WebsocketBlockSource) (logs : ℕ → ℕ → List Log) (now : ℕ) (gap : Gap) (fills : Bool)
    → IsBounded self.max_blocks_per_batch self.fill_floor gap
    → HoldsFresh self.fill_floor self.settler
    → Returns (if fills then fill_gap self logs now gap else ok self) (KeepsFloor self)
fill_if-KeepsFloor self logs now gap true b h = fill_gap-KeepsFloor self logs now gap b h
fill_if-KeepsFloor self logs now gap false b h =
    (self, refl, record { floor_is = refl; span_is = refl; fresh = h; through_grows = omega arith })

KeepsFloor-trans : (a b c : WebsocketBlockSource) → KeepsFloor a b → KeepsFloor b c → KeepsFloor a c
KeepsFloor-trans a b c k l = record {
  floor_is = l.floor_is ∙ k.floor_is;
  span_is = l.span_is ∙ k.span_is;
  fresh = subst (λ (f : LogPosition). HoldsFresh f c.settler) k.floor_is l.fresh;
  through_grows = omega (arith, k.through_grows, l.through_grows);
}

AreBounded-KeepsFloor :
    (self next : WebsocketBlockSource) (gaps : List Gap)
    → KeepsFloor self next
    → AreBounded self gaps
    → AreBounded next gaps
AreBounded-KeepsFloor self next gaps k bs =
    subst (λ (n : ℕ). All (IsBounded n next.fill_floor) gaps) (sym k.span_is)
      (subst (λ (f : LogPosition). All (IsBounded self.max_blocks_per_batch f) gaps)
        (sym k.floor_is) bs)

fill_gaps-KeepsFloor :
    (gaps : List Gap) (self : WebsocketBlockSource) (logs : ℕ → ℕ → List Log) (now : ℕ)
    → AreBounded self gaps
    → HoldsFresh self.fill_floor self.settler
    → Returns (fill_gaps self logs now gaps) (KeepsFloor self)
unfolding fill_gaps
fill_gaps-KeepsFloor [] self logs now bs h =
    (self, refl, record { floor_is = refl; span_is = refl; fresh = h; through_grows = omega arith })
fill_gaps-KeepsFloor (gap ∷ gaps) self logs now (b, bs) h =
    let (next, e, k) = fill_if-KeepsFloor self logs now gap self.fill_reconnect_gaps b h in
    let (last, e', l) =
      fill_gaps-KeepsFloor gaps next logs now (AreBounded-KeepsFloor self next gaps k bs)
        (subst (λ (f : LogPosition). HoldsFresh f next.settler) (sym k.floor_is) k.fresh) in
    rw (e, e') (last, refl, KeepsFloor-trans self next last k l)

pub set_time-IsFresh :
    (floor : LogPosition) (log : Log) (time : Option ℕ)
    → IsFresh floor log
    → IsFresh floor (set_time log time)
unfolding set_time log_position
set_time-IsFresh floor log none f = f
set_time-IsFresh floor log (some t) f = f

-- What is handed on is from the floor on.
abbrev pub IsFreshBatch : LogPosition → Option EventBatch → Type 0
IsFreshBatch floor none = Unit
IsFreshBatch floor (some batch) = All (IsFresh floor) batch.events

take_in-KeepsFloor :
    (now : ℕ) (a : Answers) (self : WebsocketBlockSource)
    → AreBounded self self.event_queue.gaps
    → HoldsFresh self.fill_floor self.settler
    → Returns (take_in now a self) (KeepsFloor self)
unfolding take_in drain take_gaps
take_in-KeepsFloor now a self bs h =
    let filed = record self {
      event_queue = (take_gaps (drain self.event_queue).0).0;
      settler = add self.settler (retain_from self.fill_floor self.event_queue.sent) now;
    } in
    let (next, e, k) = fill_gaps-KeepsFloor self.event_queue.gaps filed a.logs now bs (
      add-HoldsFresh self.fill_floor (retain_from self.fill_floor self.event_queue.sent)
        self.settler now (retain_from-IsFresh self.fill_floor self.event_queue.sent) h) in
    (
      next,
      e,
      record {
        floor_is = k.floor_is;
        span_is = k.span_is;
        fresh = k.fresh;
        through_grows = k.through_grows;
      },
    )

module _ {P : Type 0} (pools : PoolInterface P) where
  batch_of-IsFreshBatch :
      (r : PoolRegistry P) (a : Answers) (self : WebsocketBlockSource) (floor : LogPosition)
      (o : Option Settled)
      → ((x : Settled) → o ≡ some x → All (IsFresh floor) x.logs)
      → IsFreshBatch floor (batch_of pools r a self o)
  unfolding batch_of enriched
  batch_of-IsFreshBatch r a self floor none h = tt
  batch_of-IsFreshBatch r a self floor (some x) h =
      enrich-All (IsFresh floor) (set_time-IsFresh floor) a.header
        (get_addresses_by_type pools r trader_joe_lb) x.logs self.event_queue.block_times (h x refl)

  -- The batch and the settler after a question.
  turn_of :
      (r : PoolRegistry P) (a : Answers) (self : WebsocketBlockSource) (floor : LogPosition)
      (answer : BlockSettler × Option Settled)
      → FreshAnswer floor answer
      → HoldsFresh floor answer.0 × IsFreshBatch floor (batch_of pools r a self answer.1)
  turn_of r a self floor (s, none) h =
      (h, batch_of-IsFreshBatch r a self floor none (λ x e. absurd (ground arith)))
  turn_of r a self floor (s, some x) h =
      (h.0, batch_of-IsFreshBatch r a self floor (some x) (λ y e. ground (arith, h.1)))

  -- For gaps whose blocks are `u64`s, as are the floor's and the number of blocks for a batch, and
  -- a settler that holds nothing from before the floor, a turn of the websocket source ends without
  -- a panic. It leaves the floor as it is, the settler still holds nothing from before it, the
  -- block through which logs are only applied does not go back, and no log of the batch that is
  -- handed on, if any, is from before the floor.
  pub websocket_turn-KeepsFloor :
      (now : ℕ) (r : PoolRegistry P) (a : Answers) (self : WebsocketBlockSource)
      → All (IsBounded self.max_blocks_per_batch self.fill_floor) self.event_queue.gaps
      → HoldsFresh self.fill_floor self.settler
      → Returns
          (websocket_turn pools now r a self)
          (λ (next, batch). KeepsFloor self next × IsFreshBatch self.fill_floor batch)
  unfolding websocket_turn
  websocket_turn-KeepsFloor now r a self bs h =
      let (next, e, k) = take_in-KeepsFloor now a self bs h in
      let t =
        turn_of r a next self.fill_floor (take_ready next.settler now)
          (take_ready-FreshAnswer self.fill_floor next.settler now k.fresh) in
      rw e (
        _,
        refl,
        (
          record {
            floor_is = k.floor_is;
            span_is = k.span_is;
            fresh = t.0;
            through_grows = k.through_grows;
          },
          t.1,
        ),
      )
