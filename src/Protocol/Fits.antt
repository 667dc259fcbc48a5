-- ===== src/Protocol/Fits.antt =====
-- The memory map that is bound to the name, and those that a client or a server may still have.
use shmrpc.Prelude.{
  ℕ, zero, suc, ◌+◌, ◌-◌, ◌*◌, ◌<◌, ◌≤◌, leb, ◌≡◌, ◌≢◌, ◌⊎◌, inl, inr, some, Bool, true, false,
  refl, arith, Bool-cases,
}
use shmrpc.Protocol.Bytes.{Bytes, length, zeros, length-zeros}
use shmrpc.Protocol.Sizes.{chk_size_lem}
use shmrpc.Protocol.Memory.{
  Memory, len, invalid, Outcome, returns, raises, P, and_then, chk_size, create_pid_mmap,
  resize_mmap, connect_to_pid_mmap, reconnect_to_mmap, valid_mmap, fit,
}

-- It returns, with a condition on the result.
abbrev pub Post : {A : Type 0} → (A → Memory → Type 0) → Outcome A → Type 0
Post Q (returns a m) = Q a m
Post Q (raises e m) = ⊥

pub Post-bind :
    {A B : Type 0} (Q : A → Memory → Type 0) (R : B → Memory → Type 0) (r : Outcome A) (k : A → P B)
    → Post Q r
    → ((a : A) (m : Memory) → Q a m → Post R (k a m))
    → Post R (and_then r k)
Post-bind Q R (returns a m) k h f = f a m h
Post-bind Q R (raises e m) k h f = h

pub Post-weaken :
    {A : Type 0} (Q R : A → Memory → Type 0) (r : Outcome A)
    → ((a : A) (m : Memory) → Q a m → R a m)
    → Post Q r
    → Post R r
Post-weaken Q R (returns a m) f h = f a m h
Post-weaken Q R (raises e m) f h = h

-- Map `r` is bound to the name and valid, and it is not too small to grow.
pub record Current (m : Memory) (r : ℕ) : Type 0 where
  pub bound : m.bound ≡ some r
  pub inside : r < m.count
  pub valid : (m.regions r).status ≢ invalid
  pub room : 2 < len (m.regions r)

-- Map `h` is the current one, or it is smaller and marked as invalid.
abbrev pub Sees : Memory → ℕ → ℕ → Type 0
Sees m r h =
    (h < m.count)
    × ((h ≡ r) ⊎ (((m.regions h).status ≡ invalid) × (len (m.regions h) < len (m.regions r))))

module _ (m : Memory) (r : ℕ) (now : Current m r) where
  pub Current-stays : (left : ℕ) (b : Bool) → valid_mmap left b r m ≡ returns (r, b) m
  unfolding valid_mmap
  Current-stays zero b = ground (arith, now.valid)
  Current-stays (suc left) b = ground (arith, now.valid)

  reconnects : (h : ℕ) → len (m.regions h) < len (m.regions r) → reconnect_to_mmap h m ≡ returns r m
  unfolding reconnect_to_mmap connect_to_pid_mmap
  reconnects h l = rw now.bound (ground (arith, l))

  follows :
      (h left : ℕ) (b : Bool)
      → (m.regions h).status ≡ invalid
      → len (m.regions h) < len (m.regions r)
      → valid_mmap (suc left) b h m ≡ valid_mmap left true r m
  unfolding valid_mmap
  follows h left b e l = rw (e, reconnects h l) refl

  -- Whoever has the current map, or one that was current before it, comes to the current one.
  pub valid_mmap_lem :
      (h left : ℕ)
      → Sees m r h
      → (b : Bool) × (valid_mmap (suc left) false h m ≡ returns (r, b) m) × (b ≡ true → h ≢ r)
  valid_mmap_lem h left (inside, inl e) =
      rw e (false, Current-stays (suc left) false, λ f. ground (arith, f))
  valid_mmap_lem h left (inside, inr (e, l)) =
      (true, rw (follows h left false e l) (Current-stays left true), λ _ f. ground (arith, f, l))

-- What a new map with room for the bytes leaves.
abbrev Resized : ℕ → Memory → ℕ → Bytes → ℕ → Memory → Type 0
Resized page m r encoded new m' =
    (new ≡ m.count)
    × (m'.bound ≡ some m.count)
    × (m'.count ≡ m.count + 1)
    × (m'.regions m.count ≡ record {
      status = (m.regions r).status;
      body = zeros (chk_size page (length encoded * 2) - 1);
    })
    × (m'.regions r ≡ record (m.regions r) { status = invalid })

module _ (page : ℕ) (positive : 0 < page) (m : Memory) (r : ℕ) (now : Current m r) where
  resize_lem :
      (encoded : Bytes)
      → len (m.regions r) - 1 ≤ length encoded
      → Post
          (λ new m'.
            Resized page m r encoded new m'
            × ((h : ℕ) → h ≢ r → h < m.count → m'.regions h ≡ m.regions h))
          (resize_mmap page r encoded m)
  unfolding resize_mmap create_pid_mmap
  resize_lem encoded full = ground (
    arith,
    now,
    full,
    length-zeros (chk_size page (length encoded * 2) - 1),
    (chk_size_lem page (length encoded * 2) positive).0,
  )

  -- What there is when the bytes fit: the current map, in the same state, and all who saw the old one
  -- see it.
  abbrev pub Fitted : Bytes → ℕ → Memory → Type 0
  Fitted encoded new m' =
      Current m' new
      × ((m'.regions new).status ≡ (m.regions r).status)
      × (length encoded < length (m'.regions new).body)
      × ((h : ℕ) → Sees m r h → Sees m' new h)

  Resized-Sees :
      (encoded : Bytes) (new : ℕ) (m' : Memory)
      → len (m.regions r) - 1 ≤ length encoded
      → Resized page m r encoded new m'
      → ((h : ℕ) → h ≢ r → h < m.count → m'.regions h ≡ m.regions h)
      → (h : ℕ) → Sees m r h
      → Sees m' new h
  Resized-Sees encoded new m' full q same h (inside, inl e) =
      let size = chk_size page (length encoded * 2) in
      ground (
        arith,
        e,
        inside,
        q,
        length-zeros (size - 1),
        (chk_size_lem page (length encoded * 2) positive).0,
        now.room,
        full,
      )
  Resized-Sees encoded new m' full q same h (inside, inr (e, l)) =
      let size = chk_size page (length encoded * 2) in
      let other : h ≢ r = λ f. ground (arith, f, l) in
      ground (
        arith,
        e,
        l,
        inside,
        q,
        same h other inside,
        length-zeros (size - 1),
        (chk_size_lem page (length encoded * 2) positive).0,
        now.room,
        full,
      )

  Resized-Fitted :
      (encoded : Bytes) (new : ℕ) (m' : Memory)
      → len (m.regions r) - 1 ≤ length encoded
      → Resized page m r encoded new m'
      → ((h : ℕ) → h ≢ r → h < m.count → m'.regions h ≡ m.regions h)
      → Fitted encoded new m'
  Resized-Fitted encoded new m' full q same =
      let size = chk_size page (length encoded * 2) in
      let long = length-zeros (size - 1) in
      let enough = (chk_size_lem page (length encoded * 2) positive).0 in
      (
        record {
          bound = ground (arith, q);
          inside = ground (arith, q);
          valid = ground (arith, q, now.valid);
          room = ground (arith, q, long, enough, now.room, full);
        },
        ground (arith, q),
        ground (arith, q, long, enough, now.room, full),
        λ h e. Resized-Sees encoded new m' full q same h e,
      )

  pub fit_lem : (encoded : Bytes) → Post (Fitted encoded) (fit page r encoded m)
  unfolding fit
  fit_lem encoded = elim (Bool-cases (leb (len (m.regions r) - 1) (length encoded))) [
    | inl full ↦ rw full (
        Post-weaken _ (Fitted encoded) (resize_mmap page r encoded m)
          (λ new m' q. Resized-Fitted encoded new m' (ground (arith, full)) q.0 q.1)
          (resize_lem encoded (ground (arith, full))))
    | inr fits ↦ rw fits (now, refl, ground (arith, fits), λ _ e. e)
  ]
