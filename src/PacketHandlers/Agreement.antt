-- ===== src/PacketHandlers/Agreement.antt =====
-- The two tables of clients, src/broker.cpp: `clients` and `subscribed_clients`.
use mqtt_broker.Common.{
  ℕ, ◌≡◌, refl, sym, ◌∙◌, List, [], ◌∷◌, length, true, false, ◌==◌, Bool-cases, Option, none, some,
  inl, inr, ==_iff, clash, arith,
}
use mathlib.Core.Path.{subst}
use mqtt_broker.Broker.{Broker}
use mqtt_broker.Broker.Tables.{has_fd, erase_fd, add_client, del_client, close_connection}
use mqtt_broker.PacketHandlers.{ref_of, add_subscribed_client}
use mqtt_broker.PacketHandlers.Accept.{enter_fd}

-- Each subscribed socket has a client, and that is the client it subscribed with.
abbrev pub Agreed : List (ℕ × Option ℕ) → List (ℕ × ℕ) → Type 0
Agreed clients [] = Unit {0}
Agreed clients ((fd, ref) ∷ subscribed) = (ref_of fd clients ≡ some ref) × Agreed clients subscribed

abbrev pub Agrees : Broker → Type 0
Agrees b = Agreed b.clients b.subscribed_clients

-- A socket whose entry is erased has no client.
pub ref_of-erase_fd_self :
    (fd : ℕ) (clients : List (ℕ × Option ℕ)) → ref_of fd (erase_fd fd clients) ≡ none
unfolding ref_of erase_fd
ref_of-erase_fd_self fd [] = refl
ref_of-erase_fd_self fd ((g, ref) ∷ clients) = elim (Bool-cases (g == fd)) [
  | inl e ↦ rw e (ref_of-erase_fd_self fd clients)
  | inr n ↦ rw (n, n) (ref_of-erase_fd_self fd clients)
]

pub ref_of-erase_fd :
    (fd f : ℕ) (clients : List (ℕ × Option ℕ))
    → ref_of fd clients ≡ none
    → ref_of fd (erase_fd f clients) ≡ none
unfolding ref_of erase_fd
ref_of-erase_fd fd f [] h = refl
ref_of-erase_fd fd f ((g, ref) ∷ clients) h = elim (Bool-cases (g == f)) [
  | inl e ↦ elim (Bool-cases (g == fd)) [
    | inl s ↦ rw e (
        subst (λ x. ref_of fd (erase_fd x clients) ≡ none)
          (sym ((==_iff g fd).0 s) ∙ (==_iff g f).0 e) (ref_of-erase_fd_self fd clients))
    | inr n ↦ rw e (ref_of-erase_fd fd f clients (rw n at h))
  ]
  | inr d ↦ elim (Bool-cases (g == fd)) [
    | inl s ↦ rw (d, s) (rw s at h)
    | inr n ↦ rw (d, n) (ref_of-erase_fd fd f clients (rw n at h))
  ]
]

pub ref_of-enter_fd :
    (fd f : ℕ) (clients : List (ℕ × Option ℕ))
    → ref_of fd clients ≡ none
    → ref_of fd (enter_fd f clients) ≡ none
unfolding ref_of enter_fd
ref_of-enter_fd fd f clients h = elim (Bool-cases (has_fd f clients)) [
  | inl t ↦ rw (enter_fd, t) h
  | inr n ↦ elim (Bool-cases (f == fd)) [
    | inl s ↦ rw (enter_fd, n, s) refl
    | inr d ↦ rw (enter_fd, n, d) h
  ]
]

pub add_subscribed_client-Agreed :
    (clients : List (ℕ × Option ℕ)) (fd ref : ℕ) (subscribed : List (ℕ × ℕ))
    → ref_of fd clients ≡ some ref
    → Agreed clients subscribed
    → Agreed clients (add_subscribed_client fd ref subscribed)
unfolding add_subscribed_client
add_subscribed_client-Agreed clients fd ref [] e h = (e, tt)
add_subscribed_client-Agreed clients fd ref ((f, r) ∷ subscribed) e (h, hs) =
    elim (Bool-cases (f == fd)) [
      | inl s ↦ rw s (h, hs)
      | inr n ↦ rw n (h, add_subscribed_client-Agreed clients fd ref subscribed e hs)
    ]

-- Agreement is about the sockets that have a client: it stays where they keep it.
Agreed-keep :
    (clients clients' : List (ℕ × Option ℕ)) (subscribed : List (ℕ × ℕ))
    → ((fd ref : ℕ) → ref_of fd clients ≡ some ref → ref_of fd clients' ≡ some ref)
    → Agreed clients subscribed
    → Agreed clients' subscribed
Agreed-keep clients clients' [] k h = tt
Agreed-keep clients clients' ((fd, ref) ∷ subscribed) k (h, hs) =
    (k fd ref h, Agreed-keep clients clients' subscribed k hs)

ref_of-erase_fd_other :
    (fd f ref : ℕ) (clients : List (ℕ × Option ℕ))
    → (fd == f) ≡ false
    → ref_of fd clients ≡ some ref
    → ref_of fd (erase_fd f clients) ≡ some ref
unfolding ref_of erase_fd
ref_of-erase_fd_other fd f ref [] n h = h
ref_of-erase_fd_other fd f ref ((g, r) ∷ clients) n h = elim (Bool-cases (g == f)) [
  | inl e ↦ elim (Bool-cases (g == fd)) [
    | inl s ↦ absurd (ground arith)
    | inr d ↦ rw e (ref_of-erase_fd_other fd f ref clients n (rw d at h))
  ]
  | inr e ↦ elim (Bool-cases (g == fd)) [
    | inl s ↦ rw (e, s) (rw s at h)
    | inr d ↦ rw (e, d) (ref_of-erase_fd_other fd f ref clients n (rw d at h))
  ]
]

erase_fd-Agreed :
    (f : ℕ) (clients : List (ℕ × Option ℕ)) (subscribed : List (ℕ × ℕ))
    → Agreed clients subscribed
    → Agreed (erase_fd f clients) (erase_fd f subscribed)
unfolding erase_fd
erase_fd-Agreed f clients [] h = tt
erase_fd-Agreed f clients ((fd, ref) ∷ subscribed) (h, hs) = elim (Bool-cases (fd == f)) [
  | inl s ↦ rw s (erase_fd-Agreed f clients subscribed hs)
  | inr n ↦
      rw n (ref_of-erase_fd_other fd f ref clients n h, erase_fd-Agreed f clients subscribed hs)
]

pub close_connection-Agrees : (fd : ℕ) (b : Broker) → Agrees b → Agrees (close_connection fd b)
unfolding close_connection del_client
close_connection-Agrees fd b h = erase_fd-Agreed fd b.clients b.subscribed_clients h

-- A socket that is not in the table has no client.
ref_of-has_fd :
    (fd : ℕ) (clients : List (ℕ × Option ℕ)) → has_fd fd clients ≡ false → ref_of fd clients ≡ none
unfolding ref_of has_fd
ref_of-has_fd fd [] h = refl
ref_of-has_fd fd ((g, r) ∷ clients) h = elim (Bool-cases (g == fd)) [
  | inl s ↦ absurd (clash true refl (rw s at h))
  | inr n ↦ rw n (ref_of-has_fd fd clients (rw n at h))
]

-- A new entry for a socket that is not in the table changes no other.
entry_kept :
    (f : ℕ) (entry : Option ℕ) (clients : List (ℕ × Option ℕ))
    → has_fd f clients ≡ false
    → (fd ref : ℕ) → ref_of fd clients ≡ some ref
    → ref_of fd ((f, entry) ∷ clients) ≡ some ref
unfolding ref_of
entry_kept f entry clients h fd ref e = elim (Bool-cases (f == fd)) [
  | inl s ↦ absurd (
      none_some (
        sym (subst (λ x. ref_of x clients ≡ none) ((==_iff f fd).0 s) (ref_of-has_fd f clients h))
        ∙ e))
  | inr n ↦ rw n e
]
  where
    none_some : ◌≡◌ {A = Option ℕ} none (some ref) → ⊥
    none_some k = cc

pub enter_fd-Agreed :
    (f : ℕ) (clients : List (ℕ × Option ℕ)) (subscribed : List (ℕ × ℕ))
    → Agreed clients subscribed
    → Agreed (enter_fd f clients) subscribed
unfolding enter_fd
enter_fd-Agreed f clients subscribed h = elim (Bool-cases (has_fd f clients)) [
  | inl t ↦ rw t h
  | inr n ↦
      rw n (Agreed-keep clients ((f, none) ∷ clients) subscribed (entry_kept f none clients n) h)
]

pub add_client-Agrees :
    (sock cur_time : ℕ) (ip : List ℕ) (b : Broker)
    → Agrees b
    → Agrees (add_client sock ip cur_time b).1
unfolding add_client
add_client-Agrees sock cur_time ip b h = elim (Bool-cases (has_fd sock b.clients)) [
  | inl t ↦ rw t h
  | inr n ↦ rw n (
      Agreed-keep b.clients ((sock, some (length b.objects)) ∷ b.clients) b.subscribed_clients
        (entry_kept sock (some (length b.objects)) b.clients n) h)
]
