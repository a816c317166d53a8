-- ===== src/Daemon/Clients.antt =====
-- The list of clients in examples/daemon_sender_uv.c: what a callback of one client and
-- `client_close` do to it.
use dnswire.Prelude.{
  ℕ, ◌<◌, ◌≡◌, ◌≢◌, refl, subst, sym, List, [], ◌∷◌, ◌==◌, Bool-cases, if◌then◌else◌, inl, inr,
  arith, ap, All,
}
use dnswire.Daemon.{Client, unlink_after, unlink, at_client, Server, client_close}
use dnswire.Daemon.Valid.{IsFresh, Apart, Falling}

-- Two lists of clients, one by one.
abbrev pub Pairwise : (Client → Client → Type 0) → List Client → List Client → Type 0
Pairwise R [] [] = Unit
Pairwise R (c ∷ cs) (d ∷ ds) = R c d × Pairwise R cs ds
Pairwise R _ _ = ⊥

abbrev pub Same : Client → Client → Type 0
Same c d = (d.address ≡ c.address) × (d.id ≡ c.id)

IsFresh-Same : (a : ℕ) (cs ds : List Client) → Pairwise Same cs ds → IsFresh a cs → IsFresh a ds
IsFresh-Same a [] [] p h = tt
IsFresh-Same a [] (d ∷ ds) p h = absurd p
IsFresh-Same a (c ∷ cs) [] p h = absurd p
IsFresh-Same a (c ∷ cs) (d ∷ ds) p h = (rw (p.0.0) h.0, IsFresh-Same a cs ds p.1 h.1)

pub Apart-Same : (cs ds : List Client) → Pairwise Same cs ds → Apart cs → Apart ds
Apart-Same [] [] p h = tt
Apart-Same [] (d ∷ ds) p h = absurd p
Apart-Same (c ∷ cs) [] p h = absurd p
Apart-Same (c ∷ cs) (d ∷ ds) p h =
    (rw (p.0.0) (IsFresh-Same c.address cs ds p.1 h.0), Apart-Same cs ds p.1 h.1)

pub Falling-Same : (n : ℕ) (cs ds : List Client) → Pairwise Same cs ds → Falling n cs → Falling n ds
Falling-Same n [] [] p h = tt
Falling-Same n [] (d ∷ ds) p h = absurd p
Falling-Same n (c ∷ cs) [] p h = absurd p
Falling-Same n (c ∷ cs) (d ∷ ds) p h =
    (rw (p.0.1) h.0, rw (p.0.1) (Falling-Same c.id cs ds p.1 h.1))

pub Pairwise-refl : (cs : List Client) → Pairwise Same cs cs
Pairwise-refl [] = tt
Pairwise-refl (c ∷ cs) = ((refl, refl), Pairwise-refl cs)

-- A callback that leaves address and id alone leaves the list in order.
pub at_client-Same :
    (a : ℕ) (f : Client → Client) (cs : List Client)
    → ((c : Client) → Same c (f c))
    → Pairwise Same cs (at_client a f cs)
unfolding at_client
at_client-Same a f [] s = tt
at_client-Same a f (c ∷ cs) s = elim (Bool-cases (c.address == a)) [
  | inl e ↦ rw e (s c, Pairwise-refl cs)
  | inr e ↦ rw e ((refl, refl), at_client-Same a f cs s)
]

pub at_client-All :
    (P : Client → Type 0) (a : ℕ) (f : Client → Client) (cs : List Client)
    → ((c : Client) → P c → P (f c))
    → All P cs
    → All P (at_client a f cs)
unfolding at_client
at_client-All P a f [] k h = tt
at_client-All P a f (c ∷ cs) k h = elim (Bool-cases (c.address == a)) [
  | inl e ↦ rw e (k c h.0, h.1)
  | inr e ↦ rw e (h.0, at_client-All P a f cs k h.1)
]

-- The clients that have another address, in their order.
abbrev pub without : ℕ → List Client → List Client
without a [] = []
without a (c ∷ cs) = if c.address == a then without a cs else c ∷ without a cs

without_fresh : (a : ℕ) (cs : List Client) → IsFresh a cs → without a cs ≡ cs
without_fresh a [] h = refl
without_fresh a (c ∷ cs) h = ground (arith, without_fresh a cs h.1)

unlink_after_lem :
    (a : ℕ) (prev : Client) (cs : List Client)
    → Apart cs
    → unlink_after a prev cs ≡ prev ∷ without a cs
unfolding unlink_after
unlink_after_lem a prev [] h = refl
unlink_after_lem a prev (c ∷ cs) h = elim (Bool-cases (c.address == a)) [
  | inl e ↦
      let x : c.address ≡ a = ground arith in
      rw e (ap (λ l. prev ∷ l) (sym (without_fresh a cs (subst (λ b. IsFresh b cs) x h.0))))
  | inr e ↦ rw e (ap (λ l. prev ∷ l) (unlink_after_lem a c cs h.1))
]

unlink_lem : (a : ℕ) (cs : List Client) → Apart cs → unlink a cs ≡ without a cs
unfolding unlink
unlink_lem a [] h = refl
unlink_lem a (c ∷ cs) h = elim (Bool-cases (c.address == a)) [
  | inl e ↦
      let x : c.address ≡ a = ground arith in
      rw e (sym (without_fresh a cs (subst (λ b. IsFresh b cs) x h.0)))
  | inr e ↦ rw e (unlink_after_lem a c cs h.1)
]

-- If no two clients share an address, the search for the predecessor in `client_close` leaves
-- exactly the clients at other addresses, in their order, also where the client is the first, or
-- is not in the list.
pub client_close_lem :
    (a : ℕ) (s : Server) → Apart s.clients → (client_close a s).clients ≡ without a s.clients
unfolding client_close
client_close_lem a s h = unlink_lem a s.clients h

pub without-All : (P : Client → Type 0) (a : ℕ) (cs : List Client) → All P cs → All P (without a cs)
without-All P a [] h = tt
without-All P a (c ∷ cs) h = elim (Bool-cases (c.address == a)) [
  | inl e ↦ rw e (without-All P a cs h.1)
  | inr e ↦ rw e (h.0, without-All P a cs h.1)
]

pub without-Apart : (a : ℕ) (cs : List Client) → Apart cs → Apart (without a cs)
without-Apart a [] h = tt
without-Apart a (c ∷ cs) h = elim (Bool-cases (c.address == a)) [
  | inl e ↦ rw e (without-Apart a cs h.1)
  | inr e ↦ rw e (without-All (λ d. d.address ≢ c.address) a cs h.0, without-Apart a cs h.1)
]

Falling-le : (n m : ℕ) (cs : List Client) → n < m → Falling n cs → Falling m cs
Falling-le n m [] k h = tt
Falling-le n m (c ∷ cs) k h = (omega arith, h.1)

pub without-Falling : (n a : ℕ) (cs : List Client) → Falling n cs → Falling n (without a cs)
without-Falling n a [] h = tt
without-Falling n a (c ∷ cs) h = elim (Bool-cases (c.address == a)) [
  | inl e ↦ rw e (without-Falling n a cs (Falling-le c.id n cs h.0 h.1))
  | inr e ↦ rw e (h.0, without-Falling c.id a cs h.1)
]
