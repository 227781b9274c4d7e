-- ===== src/System.antt =====
-- One pool with its dispatcher, its threads and `max_descriptor`: clients that the main loop of
-- HttpServer.c accepts and `dispatch_job` of ThreadPool.c hands to a slot, and rounds of
-- `handle_client`, in any order.
pub mod Balance
pub mod Rounds
use image_app.Common.{
  ℕ, zero, suc, ◌+◌, ◌≡◌, refl, Bool, true, false, some, List, [], ◌∷◌, Bytes, ok, increment_u64,
  ◌==◌, if◌then◌else◌, Outcome,
}
use image_app.Request.Accept.{Quality}
use image_app.ThreadPool.{Pool, allocate_pool, dispatch_job}
use image_app.Strings.CacheName.{Floats}
use image_app.DeviceCache.{DeviceCache}
use image_app.ImageCache.{FileCache}
use image_app.Image.{Magick}
use image_app.Transfer.{Answer, done}
use image_app.Client.{Pointer, Thread, Inputs}
use image_app.Client.Round.{handle_client}

-- The variables of a thread.
pub record Locals : Type 0 where
  pub idx : ℕ
  pub messages : List Bytes
  pub request : Pointer Bool
  pub image_info : Pointer (Unit {0})

-- What the threads share.
pub record World : Type 0 where
  pub pool : Pool
  pub max_descriptor : ℕ
  pub devices : DeviceCache
  pub images : FileCache
  pub log : Bytes

unfoldable pub thread_of : Locals → World → Thread
thread_of l w = record {
  idx = l.idx;
  messages = l.messages;
  request = l.request;
  image_info = l.image_info;
  pool = w.pool;
  max_descriptor = w.max_descriptor;
  devices = w.devices;
  images = w.images;
  log = w.log;
}

unfoldable pub locals_of : Thread → Locals
locals_of t = record {
  idx = t.idx;
  messages = t.messages;
  request = t.request;
  image_info = t.image_info;
}

unfoldable pub world_of : Thread → World
world_of t = record {
  pool = t.pool;
  max_descriptor = t.max_descriptor;
  devices = t.devices;
  images = t.images;
  log = t.log;
}

-- The variables of the threads, after those of one have changed.
unfoldable pub updated : ℕ → Locals → (ℕ → Locals) → ℕ → Locals
updated nE l locals i = if i == nE then l else locals i

module _ (Q : Quality) (F : Floats) (as_float : Q.Float → F.Float) (M : Magick)
    (percent : Q.Float → ℕ) (n idx_pool : ℕ) where
  -- The states after `a` clients that the main loop has accepted for the pool, `d` that its dispatcher
  -- has put into a slot, and `r` completed rounds, for a pool of `n` slots: at the start, whatever
  -- the caches hold and the variables of the threads are, behind an increment of `max_descriptor`,
  -- behind a dispatch, whenever it comes, and after a round of the thread of slot `nE`.
  pub data Reaches : ℕ → ℕ → ℕ → World → (ℕ → Locals) → Type 0 where
    start :
        {a d r : ℕ} {w : World} {locals : ℕ → Locals}
        → a ≡ 0
        → d ≡ 0
        → r ≡ 0
        → w.pool ≡ allocate_pool n idx_pool
        → w.max_descriptor ≡ 1
        → Reaches a d r w locals
    accept :
        {a d r : ℕ} {w : World} {locals : ℕ → Locals}
        → Reaches a d r w locals
        → Reaches (suc a) d r (record w { max_descriptor = increment_u64 w.max_descriptor }) locals
    dispatch :
        {a d r : ℕ} {w : World} {locals : ℕ → Locals} (q : Pool) (conn_sd client_addr nE : ℕ)
        → Reaches a d r w locals
        → dispatch_job n (w.pool ∷ []) conn_sd client_addr ≡ ok (some (nE, q))
        → Reaches a (suc d) r (record w { pool = q }) locals
    round :
        {a d r : ℕ} {w : World} {locals : ℕ → Locals} (nE : ℕ) (input : Inputs) (t : Thread)
        (out : Bytes) (rest : List Answer)
        → Reaches a d r w locals
        → handle_client Q F as_float M percent nE input (thread_of (locals nE) w) ≡ done t out rest
        → Reaches a d (suc r) (world_of t) (updated nE (locals_of t) locals)
