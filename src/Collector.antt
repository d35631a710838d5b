-- ===== src/Collector.antt =====
-- app/collector.py and app/collector_store.py: one process polls and writes its snapshot to the store,
-- the workers of the web server poll nothing and answer through `get_cached` of the poller's module.
-- The cache of a worker is its own; the store and the history are shared. The two pollers that have a
-- `collected_at`, LogStats and ThreatStats, meet the interface.
pub mod Workers
pub mod Pollers
use t_log.Shared.{ℕ, Bool, true, false, Option, none, some, ◌≡◌, ◌⊎◌, if◌then◌else◌, nat_eq}

-- What the processes need of a poller: its state `S` with a cache `C`, and one cycle on the input `I`.
pub record Poller (S C I : Type 0) : Type 0 where
  pub cache : S → C
  pub with_cache : C → S → S
  pub stored : S → Option C
  pub is_filled : C → Bool
  pub empty : C
  pub get_cached : S → S × C
  pub poll : I → S → S
  pub cache_with : (c : C) (s : S) → cache (with_cache c s) ≡ c
  pub stored_with : (c : C) (s : S) → stored (with_cache c s) ≡ stored s
  pub empty_unfilled : is_filled empty ≡ false
  pub get_own : (s : S) → is_filled (cache s) ≡ true → get_cached s ≡ (s, cache s)
  pub get_stored :
      (s : S) (c : C)
      → is_filled (cache s) ≡ false
      → stored s ≡ some c
      → get_cached s ≡ (with_cache c s, c)
  pub get_none :
      (s : S) → is_filled (cache s) ≡ false → stored s ≡ none → get_cached s ≡ (s, cache s)
  pub poll_publishes :
      (i : I) (s : S)
      → (poll i s ≡ s)
        ⊎ ((stored (poll i s) ≡ some (cache (poll i s))) × (is_filled (cache (poll i s)) ≡ true))

-- The collector's state, with the store, and the cache of each worker.
pub record Split (S C : Type 0) : Type 0 where
  pub own : S
  pub workers : ℕ → C

module _ {S C I : Type 0} (p : Poller S C I) where
  -- What worker `i` works on.
  abbrev pub view : ℕ → Split S C → S
  view i s = p.with_cache (s.workers i) s.own

  abbrev pub set_worker : ℕ → C → (ℕ → C) → ℕ → C
  set_worker i c workers j = if nat_eq i j then c else workers j

  -- Worker `i` answers a request.
  pub serve : ℕ → Split S C → Split S C × C
  serve i s =
      let (after, answer) = p.get_cached (view i s) in
      (record s { workers = set_worker i (p.cache after) s.workers }, answer)

  pub cycle : I → Split S C → Split S C
  cycle i s = record s { own = p.poll i s.own }

  -- The processes in any order.
  pub data Run (start : Split S C) : Split S C → Type 0 where
    here : Run start start
    polled : {s : Split S C} → Run start s → (i : I) → Run start (cycle i s)
    served : {s : Split S C} → Run start s → (i : ℕ) → Run start (serve i s).0

  -- A start with nothing polled and nothing stored.
  abbrev pub IsStart : Split S C → Type 0
  IsStart s =
      (p.is_filled (p.cache s.own) ≡ false)
      × (p.stored s.own ≡ none)
      × ((i : ℕ) → s.workers i ≡ p.empty)
