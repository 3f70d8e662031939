-- ===== src/Server/Table.antt =====
-- The table of clients in lib/socket.c: what pick_client finds after a connection was accepted.
use epoll_chat.Common.{
  ℕ, zero, suc, ◌<◌, ◌≤◌, ◌≡◌, refl, sym, ap, subst, fun_ext, length-set, length-append, ltb→lt,
  ◌∙◌, inl, inr, List, [], ◌∷◌, ◌++◌, Option, none, some, if◌then◌else◌, ltb, ◌==◌, length, get_or,
  set, update, arith, Bool-cases, Option-cases,
}
use mathlib.Core.Option.{some-injective, none-ne-some}
use epoll_chat.World.{World, Address}
use epoll_chat.Server.Connection.{
  find_slot, pick_client, slot, im_connection_accept, accept_client, max_clients,
}

-- The client that pick_client finds for a descriptor.
abbrev pub client_of : World → ℕ → Option ℕ
client_of w fd = elim (pick_client w fd) [ none ↦ none | some i ↦ some (slot w i) ]

-- The first client of a list with the descriptor.
first : (ℕ → ℕ) → ℕ → List ℕ → Option ℕ
first f fd [] = none
first f fd (c ∷ cs) = if f c == fd then some c else first f fd cs

-- Every client of a list was allocated before `n`.
abbrev pub AllBelow : ℕ → List ℕ → Type 0
AllBelow n [] = Unit {0}
AllBelow n (c ∷ cs) = (c < n) × AllBelow n cs

find_slot-first :
    (w : World) (fd : ℕ) (cs : List ℕ)
    → (elim (find_slot w fd cs) as (λ o. Option ℕ) [ none ↦ none | some i ↦ some (get_or cs i 0) ])
      ≡ first (λ c. (w.clients c).fd) fd cs
unfolding find_slot first
find_slot-first w fd [] = refl
find_slot-first w fd (c ∷ cs) = ground (arith, find_slot-first w fd cs)

first-below :
    (f : ℕ → ℕ) (fd k n : ℕ) (cs : List ℕ)
    → AllBelow n cs
    → first (update f n fd) k cs ≡ first f k cs
unfolding first
first-below f fd k n [] b = refl
first-below f fd k n (c ∷ cs) b = ground (arith, first-below f fd k n cs b.1)

first-set :
    (w : World) (fd k n i : ℕ) (cs : List ℕ)
    → AllBelow n cs
    → find_slot w fd cs ≡ some i
    → first (update (λ c. (w.clients c).fd) n fd) k (set cs i n)
      ≡ (if k == fd then some n else first (λ c. (w.clients c).fd) k cs)
unfolding find_slot first
first-set w fd k n i [] b e = absurd (ground arith)
first-set w fd k n zero (c ∷ cs) b e =
    ground (arith, first-below (λ c. (w.clients c).fd) fd k n cs b.1)
first-set w fd k n (suc i) (c ∷ cs) b e = ground (arith, first-set w fd k n i cs b.1)

first-append :
    (w : World) (fd k n : ℕ) (cs : List ℕ)
    → AllBelow n cs
    → find_slot w fd cs ≡ none
    → first (update (λ c. (w.clients c).fd) n fd) k (cs ++ (n ∷ []))
      ≡ (if k == fd then some n else first (λ c. (w.clients c).fd) k cs)
unfolding find_slot first
first-append w fd k n [] b e = ground arith
first-append w fd k n (c ∷ cs) b e = ground (arith, first-append w fd k n cs b.1)

client_of-first : (w : World) (k : ℕ) → client_of w k ≡ first (λ c. (w.clients c).fd) k w.slots
unfolding pick_client
client_of-first w k = find_slot-first w k w.slots

AllBelow-append : (n : ℕ) (cs : List ℕ) → AllBelow n cs → AllBelow (suc n) (cs ++ (n ∷ []))
AllBelow-append n [] b = omega arith
AllBelow-append n (c ∷ cs) b = (omega arith, AllBelow-append n cs b.1)

AllBelow-suc : (n : ℕ) (cs : List ℕ) → AllBelow n cs → AllBelow (suc n) cs
AllBelow-suc n [] b = tt
AllBelow-suc n (c ∷ cs) b = (omega arith, AllBelow-suc n cs b.1)

AllBelow-set : (n i : ℕ) (cs : List ℕ) → AllBelow n cs → AllBelow (suc n) (set cs i n)
AllBelow-set n i [] b = tt
AllBelow-set n zero (c ∷ cs) b = (omega arith, AllBelow-suc n cs b.1)
AllBelow-set n (suc i) (c ∷ cs) b = (omega arith, AllBelow-set n i cs b.1)

-- What accept_client makes of a table.
Accepted : World → ℕ → World → Type 0
Accepted w fd w' =
    ((k : ℕ) → client_of w' k ≡ (if k == fd then some w.client_count else client_of w k))
    × AllBelow w'.client_count w'.slots
    × (length w'.slots ≤ max_clients)

placed :
    (w : World) (fd : ℕ) (addr : Address) (cs freed : List ℕ)
    → ((k : ℕ)
        → first (update (λ c. (w.clients c).fd) w.client_count fd) k cs
          ≡ (if k == fd then some w.client_count else first (λ c. (w.clients c).fd) k w.slots))
    → (k : ℕ)
    → client_of (record ((im_connection_accept w fd addr).0) { slots = cs; freed = freed }) k
      ≡ (if k == fd then some w.client_count else client_of w k)
unfolding im_connection_accept
placed w fd addr cs freed h k =
    let w' : World = record ((im_connection_accept w fd addr).0) { slots = cs; freed = freed } in
    client_of-first w' k
    ∙ (ap (λ f. first f k cs) (fun_ext λ c. ground arith)
        ∙ (h k ∙ ap (λ o. if k == fd then some w.client_count else o) (sym (client_of-first w k))))

accept_new :
    (w : World) (fd : ℕ) (addr : Address)
    → pick_client w fd ≡ none
    → accept_client w fd addr ≡ (
        if ltb (length w.slots) max_clients
        then some (record ((im_connection_accept w fd addr).0) {
          slots = w.slots ++ (w.client_count ∷ []);
          freed = w.freed;
        })
        else none)
unfolding accept_client im_connection_accept
accept_new w fd addr p = rw (p, accept_client)

accept_old :
    (w : World) (fd i : ℕ) (addr : Address)
    → pick_client w fd ≡ some i
    → accept_client w fd addr
      ≡ some (record ((im_connection_accept w fd addr).0) {
        slots = set w.slots i w.client_count;
        freed = slot w i ∷ w.freed;
      })
unfolding accept_client im_connection_accept
accept_old w fd i addr p = rw (p, accept_client)

count-accept :
    (w : World) (fd : ℕ) (addr : Address)
    → (im_connection_accept w fd addr).0.client_count ≡ suc w.client_count
unfolding im_connection_accept
count-accept w fd addr = refl

-- In a table of at most 256 clients, all allocated so far, after an accept_client that does not
-- overrun it, its descriptor finds the new client, and every other descriptor finds what it
-- found, whether the new client takes the slot of an old one of that descriptor or a slot of its
-- own; the table keeps to its 256 slots, and holds clients allocated so far only.
pub accept_client_lem :
    (w w' : World) (fd : ℕ) (addr : Address)
    → AllBelow w.client_count w.slots
    → length w.slots ≤ max_clients
    → accept_client w fd addr ≡ some w'
    → ((k : ℕ) → client_of w' k ≡ (if k == fd then some w.client_count else client_of w k))
      × AllBelow w'.client_count w'.slots
      × (length w'.slots ≤ max_clients)
unfolding Accepted pick_client
accept_client_lem w w' fd addr b m e = elim (Option-cases (pick_client w fd)) [
  | inr (i, p) ↦ subst (Accepted w fd) (some-injective _ _ (sym (accept_old w fd i addr p) ∙ e)) (
    placed w fd addr (set w.slots i w.client_count) (slot w i ∷ w.freed)
        λ k. first-set w fd k w.client_count i w.slots b p,
    rw (count-accept w fd addr) (AllBelow-set w.client_count i w.slots b),
    omega (arith, length-set w.slots i w.client_count),
  )
  | inl p ↦ elim (Bool-cases (ltb (length w.slots) max_clients)) [
    | inl t ↦
        subst (Accepted w fd) (some-injective _ _ (sym (rw t at (accept_new w fd addr p)) ∙ e)) (
          placed w fd addr (w.slots ++ (w.client_count ∷ [])) w.freed
              λ k. first-append w fd k w.client_count w.slots b p,
          rw (count-accept w fd addr) (AllBelow-append w.client_count w.slots b),
          omega (
            arith,
            length-append w.slots (w.client_count ∷ []),
            ltb→lt (length w.slots) max_clients t,
          ),
        )
    | inr t ↦ absurd (none-ne-some _ (sym (rw t at (accept_new w fd addr p)) ∙ e))
  ]
]

-- With 256 clients in the table, a connection on a descriptor of no client is written past its end.
pub accept_client-overrun :
    (w : World) (fd : ℕ) (addr : Address)
    → length w.slots ≡ max_clients
    → pick_client w fd ≡ none
    → accept_client w fd addr ≡ none
accept_client-overrun w fd addr e p = accept_new w fd addr p ∙ ground arith
