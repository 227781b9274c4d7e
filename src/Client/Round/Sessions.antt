-- ===== src/Client/Round/Sessions.antt =====
-- How many rounds a client can keep its slot for.
use image_app.Common.{
  ℕ, zero, suc, ◌+◌, ◌≤◌, ◌≡◌, ◌⊎◌, inl, inr, ap, ◌∙◌, true, false, some, List, [], ◌∷◌, Bytes,
  length, get_elem?, load-some, pos, is_nat, decrement, arith,
}
use image_app.Request.Accept.{Quality}
use image_app.ThreadPool.{ThreadData, is_free}
use image_app.ThreadPool.Timer.{wait_for_connection}
use image_app.Strings.CacheName.{Floats}
use image_app.Image.{Magick}
use image_app.Transfer.{Answer, done, waiting}
use image_app.Transfer.Ends.{Ends, Ends-bind, Ends-done, Ends-map}
use image_app.Client.{Thread, Inputs}
use image_app.Client.Round.{handle_client, serve_clients}
use image_app.Client.Round.Accounts.{Kept, Left}
use image_app.Client.Round.Bookkeeping.{Counted, round-Ends}

-- The slot is free.
abbrev pub IsFree : ℕ → Thread → Type 0
IsFree nE t = (td : ThreadData) × (get_elem? t.pool.arr nE ≡ some td) × (is_free td ≡ true)

module _ (Q : Quality) (F : Floats) (as_float : Q.Float → F.Float) (M : Magick)
    (percent : Q.Float → ℕ) (nE : ℕ) where
  -- At most `n + 1` rounds, after which the slot is free.
  abbrev pub Bounded : ℕ → List Inputs → Thread → Type 0
  Bounded n inputs t = (length inputs ≤ n + 1) × (length inputs ≡ n + 1 → IsFree nE t)

  round_waits :
      (input : Inputs) (t : Thread) (td : ThreadData)
      → get_elem? t.pool.arr nE ≡ some td
      → wait_for_connection td ≡ true
      → handle_client Q F as_float M percent nE input t ≡ waiting []
  unfolding handle_client
  round_waits input t td there waits = rw (load-some t.pool.arr nE there, waits)

  -- After the client has left, the loop does not go on by itself.
  Left-Bounded :
      (n : ℕ) (inputs : List Inputs) (input : Inputs) (t t' : Thread)
      → Left nE t t'
      → Ends (Bounded n (input ∷ inputs)) (serve_clients Q F as_float M percent nE inputs t')
  unfolding serve_clients
  Left-Bounded n [] input t t' left = (omega arith, λ _. (left.slot.0, left.slot.1, left.slot.2))
  Left-Bounded n (next ∷ inputs) input t t' left =
      rw (round_waits next t' left.slot.0 left.slot.1 left.slot.3) tt

  sessions-Bounded :
      (inputs : List Inputs) (n : ℕ) (t : Thread) (td : ThreadData)
      → get_elem? t.pool.arr nE ≡ some td
      → td.request ≡ pos n
      → Ends (Bounded n inputs) (serve_clients Q F as_float M percent nE inputs t)
  unfolding serve_clients
  sessions-Bounded [] n t td there requests = (omega arith, λ e. absurd (omega (arith, e)))
  sessions-Bounded (input ∷ inputs) n t td there requests =
      Ends-bind (Counted Q F as_float M percent nE td t) (Bounded n (input ∷ inputs))
        (handle_client Q F as_float M percent nE input t) _
        (round-Ends Q F as_float M percent nE td t input there)
        λ t' rest c. after n t' c.1 requests (sessions-Bounded inputs)
    where
      after :
          (n : ℕ) (t' : Thread)
          → (is_nat td.request 0 ≡ false) × Kept nE td t t' ⊎ Left nE t t'
          → td.request ≡ pos n
          → ((k : ℕ) (s : Thread) (td' : ThreadData)
              → get_elem? s.pool.arr nE ≡ some td'
              → td'.request ≡ pos k
              → Ends (Bounded k inputs) (serve_clients Q F as_float M percent nE inputs s))
          → Ends (Bounded n (input ∷ inputs)) (serve_clients Q F as_float M percent nE inputs t')
      after n t' (inr left) requests ih = Left-Bounded n inputs input t t' left
      after zero t' (inl (some_left, kept)) requests ih = absurd (ground arith)
      after (suc k) t' (inl (some_left, kept)) requests ih =
          let (td', there', renewed) = kept.slot in
          Ends-map (λ s b. (omega (arith, b.0), λ e. b.1 (omega (arith, e))))
            (serve_clients Q F as_float M percent nE inputs t')
            (ih k t' td' there' (renewed.one_less ∙ ap decrement requests))

  -- A client whose slot has `n` requests left keeps it for `n` completed rounds at most: the loop
  -- never gets through more than `n + 1` rounds with this client, and when it gets through `n + 1`
  -- the slot is free afterwards. After that the thread waits for the next client.
  pub handle_client_bounded :
      (inputs : List Inputs) (n : ℕ) (t t' : Thread) (td : ThreadData) {out : Bytes}
      {rest : List Answer}
      → get_elem? t.pool.arr nE ≡ some td
      → td.request ≡ pos n
      → serve_clients Q F as_float M percent nE inputs t ≡ done t' out rest
      → (length inputs ≤ n + 1) × (length inputs ≡ n + 1 → IsFree nE t')
  handle_client_bounded inputs n t t' td there requests =
      Ends-done (Bounded n inputs) (serve_clients Q F as_float M percent nE inputs t)
        (sessions-Bounded inputs n t td there requests)
