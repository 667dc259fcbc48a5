-- ===== src/Protocol/Sends.antt =====
-- What the two sides do to the map that is current: the request and the answer that they leave in it.
use shmrpc.Prelude.{ℕ, ◌<◌, ltb, ◌==◌, ◌≡◌, ◌≢◌, inl, inr, ◌++◌, true, false, some, refl, arith}
use shmrpc.Protocol.Bytes.{Bytes, length, drop, length-++, length-drop}
use shmrpc.Protocol.Frames.{request, pack_request, pack_request_lem}
use shmrpc.Protocol.Memory.{Memory, len, invalid, server, ◌>>=◌, publish, fit}
use shmrpc.Protocol.Fits.{Post, Post-bind, Post-weaken, Current, Sees, Fitted, fit_lem}
use shmrpc.Protocol.Client.{send_encoded, send_request}

-- The bytes stand in the current map, which is in this state, and whoever saw the old one sees it.
abbrev pub Left : Memory → ℕ → ℕ → Bytes → ℕ → Memory → Type 0
Left m r status bytes new m' =
    Current m' new
    × ((m'.regions new).status ≡ status)
    × ((rest : Bytes) × ((m'.regions new).body ≡ bytes ++ rest))
    × ((h : ℕ) → Sees m r h → Sees m' new h)

abbrev Published : ℕ → Bytes → ℕ → Memory → ℕ → Memory → Type 0
Published new bytes status m n m' =
    (n ≡ new)
    × (m'.bound ≡ m.bound)
    × (m'.count ≡ m.count)
    × (m'.regions new
        ≡ record { status = status; body = bytes ++ drop (length bytes) (m.regions new).body })
    × ((h : ℕ) → h ≢ new → m'.regions h ≡ m.regions h)

published_lem :
    (new : ℕ) (bytes : Bytes) (status : ℕ) (m : Memory)
    → length bytes < length (m.regions new).body
    → Post (Published new bytes status m) (publish new bytes status m)
published_lem new bytes status m room = ground (arith, room)

-- A map that is written to has the size that it had.
length-written :
    (bytes body : Bytes)
    → length bytes < length body
    → length (bytes ++ drop (length bytes) body) ≡ length body
length-written bytes body room = omega (
  arith,
  length-++ bytes (drop (length bytes) body),
  length-drop (length bytes) body (omega (arith, room)),
)

Published-Current :
    (new : ℕ) (bytes : Bytes) (status n : ℕ) (m m' : Memory)
    → status ≢ invalid
    → length bytes < length (m.regions new).body
    → Current m new
    → Published new bytes status m n m'
    → Current m' new
Published-Current new bytes status n m m' ok room now q = record {
  bound = ground (arith, q, now);
  inside = ground (arith, q, now);
  valid = ground (arith, q, ok);
  room = ground (arith, q, now.room, length-written bytes (m.regions new).body room);
}

Published-Sees :
    (new : ℕ) (bytes : Bytes) (status n : ℕ) (m m' : Memory)
    → length bytes < length (m.regions new).body
    → Published new bytes status m n m'
    → (h : ℕ) → Sees m new h
    → Sees m' new h
Published-Sees new bytes status n m m' room q h (inside, inl e) = (ground (arith, inside, q), inl e)
Published-Sees new bytes status n m m' room (f, b, c, g, same) h (inside, inr (e, l)) =
    let other : h ≢ new = λ z. ground (arith, z, l) in
    ground (arith, inside, e, l, c, g, same h other, length-written bytes (m.regions new).body room)

module _ (page : ℕ) (positive : 0 < page) (m : Memory) (r : ℕ) (now : Current m r) where
  Fitted-Left :
      (bytes : Bytes) (status new : ℕ) (m' : Memory)
      → status ≢ invalid
      → Fitted page positive m r now bytes new m'
      → Post (λ n m''. (n ≡ new) × Left m r status bytes new m'') (publish new bytes status m')
  Fitted-Left bytes status new m' ok (cur, st, room, sees) =
      Post-weaken _ _ (publish new bytes status m')
        (λ n m'' q. (
          q.0,
          (
            Published-Current new bytes status n m' m'' ok room cur q,
            ground (arith, q),
            (drop (length bytes) (m'.regions new).body, ground (arith, q)),
            λ h e. Published-Sees new bytes status n m' m'' room q h (sees h e),
          ),
        ))
        (published_lem new bytes status m' room)

  -- Bytes that are written to the current map, or to a new one where they do not fit.
  pub fit-publish :
      (bytes : Bytes) (status : ℕ)
      → status ≢ invalid
      → Post (Left m r status bytes) ((fit page r bytes >>= λ new. publish new bytes status) m)
  fit-publish bytes status ok =
      Post-bind (Fitted page positive m r now bytes) (Left m r status bytes) (fit page r bytes m) _
        (fit_lem page positive m r now bytes)
        λ new m' f.
          Post-weaken _ _ (publish new bytes status m') (λ n m'' q. rw q.0 q.1)
            (Fitted-Left bytes status new m' ok f)

  send_encoded_lem :
      (bytes : Bytes)
      → (m.regions r).status ≢ server
      → Post (Left m r server bytes) (send_encoded page bytes r m)
  unfolding send_encoded
  send_encoded_lem bytes free =
      let e : ((m.regions r).status == server) ≡ false = ground (arith, free) in
      rw e (
        Post-bind (Fitted page positive m r now bytes) (Left m r server bytes) (fit page r bytes m)
          _ (fit_lem page positive m r now bytes)
          λ new m' f.
            let g : ltb (length bytes) (len (m'.regions new)) ≡ true = ground (arith, f.2) in
            rw g (
              Post-weaken _ _ (publish new bytes server m') (λ n m'' q. rw q.0 q.1)
                (Fitted-Left bytes server new m' (λ z. ground (arith, z)) f)))

  packed :
      (cmd args bytes : Bytes)
      → pack_request cmd args ≡ some bytes
      → send_request page cmd args r m ≡ send_encoded page bytes r m
  unfolding send_request
  packed cmd args bytes e = rw (e, send_request) refl

  -- With the current map, unless a request is still there, the client leaves its request.
  pub send_request_lem :
      (cmd args : Bytes)
      → length cmd < 65536
      → length args < 4294967296
      → (m.regions r).status ≢ server
      → Post (Left m r server (request cmd args)) (send_request page cmd args r m)
  send_request_lem cmd args short_cmd short_args free =
      rw (packed cmd args (request cmd args) (pack_request_lem cmd args short_cmd short_args))
        (send_encoded_lem (request cmd args) free)
