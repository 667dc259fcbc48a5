-- ===== src/Network/Stream.antt =====
-- `recv` of NetworkClient.py and NetworkServer.py, on a connection that gives its bytes in chunks and is
-- then closed.
use shmrpc.Prelude.{
  ℕ, zero, suc, ◌+◌, ◌<◌, ◌≤◌, leb, ◌==◌, ◌≡◌, ◌≢◌, List, [], ◌∷◌, ◌++◌, true, false, refl, arith,
  if◌then◌else◌,
}
use shmrpc.Protocol.Bytes.{Bytes, length, take, drop}

-- `conn.recv(amount)`: a chunk, or its first bytes; no bytes where the connection is closed.
abbrev pub socket_recv : ℕ → List Bytes → Bytes × List Bytes
socket_recv amount [] = ([], [])
socket_recv amount (c ∷ cs) =
    if leb (length c) amount then (c, cs) else (take amount c, drop amount c ∷ cs)

pub data Received : Type 0 where
  got : Bytes → List Bytes → Received
  connection_reset : Received
  out_of_fuel : Received

abbrev pub total : List Bytes → ℕ
total [] = 0
total (c ∷ cs) = length c + total cs

-- `if not i: raise ConnectionResetError()`
abbrev pub or_reset : (Bytes → List Bytes → Received) → Bytes × List Bytes → Received
or_reset k ([], cs) = connection_reset
or_reset k (b ∷ bs, cs) = k (b ∷ bs) cs

-- `while len(r) != amount: …`
unfoldable pub recv_loop : ℕ → ℕ → Bytes → List Bytes → Received
recv_loop zero amount r cs = out_of_fuel
recv_loop (suc fuel) amount r cs = elim (length r == amount) [
  | true ↦ got r cs
  | false ↦ or_reset (λ i. recv_loop fuel amount (r ++ i)) (socket_recv amount cs)
]

-- Each round takes a byte, so a round more than there are bytes is enough.
abbrev pub recv : ℕ → List Bytes → Received
recv amount cs = recv_loop (suc (total cs)) amount [] cs

-- Every chunk has a byte.
abbrev pub Solid : List Bytes → Type 0
Solid [] = Unit
Solid (c ∷ cs) = (0 < length c) × Solid cs

abbrev pub flat : List Bytes → Bytes
flat [] = []
flat (c ∷ cs) = c ++ flat cs

-- Bytes in front, if there are any.
abbrev pub push : Bytes → List Bytes → List Bytes
push [] cs = cs
push (b ∷ bs) cs = (b ∷ bs) ∷ cs

pub push-Solid : (b : Bytes) (cs : List Bytes) → Solid cs → Solid (push b cs)
push-Solid [] cs h = h
push-Solid (x ∷ b) cs h = (omega arith, h)

pub flat-push : (b : Bytes) (cs : List Bytes) → flat (push b cs) ≡ b ++ flat cs
flat-push [] cs = refl
flat-push (x ∷ b) cs = refl

pub ++-nil : (a : Bytes) → a ++ [] ≡ a
++-nil [] = refl
++-nil (x ∷ a) = cc (++-nil a)

length-positive : (a : Bytes) → 0 < length a → (x : ℕ) × ((b : Bytes) × (a ≡ x ∷ b))
length-positive [] h = absurd (omega (arith, h))
length-positive (x ∷ b) h = (x, (b, refl))

pub full :
    (fuel amount : ℕ) (r : Bytes) (cs : List Bytes)
    → length r ≡ amount
    → recv_loop (suc fuel) amount r cs ≡ got r cs
unfolding recv_loop
full fuel amount r cs e =
    let f : (length r == amount) ≡ true = ground (arith, e) in rw (f, recv_loop) refl

pub closed :
    (fuel amount : ℕ) (r : Bytes)
    → length r ≢ amount
    → recv_loop (suc fuel) amount r [] ≡ connection_reset
unfolding recv_loop
closed fuel amount r e =
    let f : (length r == amount) ≡ false = ground (arith, e) in rw (f, recv_loop) refl

pub whole :
    (fuel amount x : ℕ) (r b : Bytes) (cs : List Bytes)
    → length r ≢ amount
    → length (x ∷ b) ≤ amount
    → recv_loop (suc fuel) amount r ((x ∷ b) ∷ cs) ≡ recv_loop fuel amount (r ++ (x ∷ b)) cs
unfolding recv_loop
whole fuel amount x r b cs e h =
    let f : (length r == amount) ≡ false = ground (arith, e) in
    let g : leb (suc (length b)) amount ≡ true = ground (arith, h) in rw (f, g, recv_loop) refl

pub part :
    (fuel amount x : ℕ) (r b : Bytes) (cs : List Bytes)
    → length r ≢ suc amount
    → suc amount < length (x ∷ b)
    → recv_loop (suc fuel) (suc amount) r ((x ∷ b) ∷ cs)
      ≡ recv_loop fuel (suc amount) (r ++ (x ∷ take amount b)) (drop amount b ∷ cs)
unfolding recv_loop
part fuel amount x r b cs e h =
    let f : (length r == suc amount) ≡ false = ground (arith, e) in
    let g : leb (suc (length b)) (suc amount) ≡ false = ground (arith, h) in
    rw (f, g, recv_loop) refl
