-- ===== src/State/Heap.antt =====
-- src/state.c on its memory: the lists as chains of nodes linked by `next`, the pointers to pointers
-- (`indirect`) with which the functions walk, `malloc` and `free`. Each loop runs on fuel. Nodes of the
-- two struct types never share memory, so one type of node at a time is enough.
pub mod Chain
pub mod Walk
pub mod Links
pub mod Refines
pub mod Sweep
use sve.Base.{ℤ, ℕ, zero, suc, Bool, Option, none, some, eqb, if◌then◌else◌, ◌==◌}
use sve.State.{DsuSocket}

abbrev pub Ptr : Type 0
Ptr = ℕ

abbrev pub null : Ptr
null = 0

pub record Node (A : Type 0) : Type 0 where
  pub content : A
  pub next : Ptr

abbrev pub node : {A : Type 0} → A → Ptr → Node A
node x next = record { content = x; next = next }

-- What `indirect` points to: a variable that holds the head of a list, or the `next` of a node.
pub data Place : Type 0 where
  head_of : ℕ → Place
  next_of : Ptr → Place

-- The head variables, and the nodes that are allocated.
pub record Store (A : Type 0) : Type 0 where
  pub heads : ℕ → Ptr
  pub cells : Ptr → Option (Node A)

unfoldable pub write : {B : Type 0} → (ℕ → B) → ℕ → B → ℕ → B
write f p b q = if eqb q p then b else f q

-- `fault` is an access through a pointer that is NULL or does not point to a node.
pub data Outcome (A B : Type 0) : Type 0 where
  done : B → Store A → Outcome A B
  fault : Outcome A B
  no_fuel : Outcome A B

abbrev pub Cmd : Type 0 → Type 0 → Type 0
Cmd A B = Store A → Outcome A B

module _ {A : Type 0} where
  abbrev pub ret : {B : Type 0} → B → Cmd A B
  ret = done

  abbrev pub continue : {B C : Type 0} → Outcome A B → (B → Cmd A C) → Outcome A C
  continue (done b s) f = f b s
  continue fault f = fault
  continue no_fuel f = no_fuel

  infixl 5 ◌>>=◌ ◌>>◌
  abbrev pub ◌>>=◌ : {B C : Type 0} → Cmd A B → (B → Cmd A C) → Cmd A C
  m >>= f = λ s. continue (m s) f

  abbrev pub ◌>>◌ : {B C : Type 0} → Cmd A B → Cmd A C → Cmd A C
  m >> n = m >>= λ _. n

  -- `*p`
  unfoldable pub load : Ptr → Cmd A (Node A)
  load p s = elim (s.cells p) [ none ↦ fault | some n ↦ done n s ]

  -- `*indirect`
  unfoldable pub read : Place → Cmd A Ptr
  read (head_of v) s = done (s.heads v) s
  read (next_of p) s = elim (s.cells p) [ none ↦ fault | some n ↦ done n.next s ]

  -- `*indirect = q`
  unfoldable pub assign : Place → Ptr → Cmd A (Unit {0})
  assign (head_of v) q s = done tt (record s { heads = write s.heads v q })
  assign (next_of p) q s = elim (s.cells p) [
    | none ↦ fault
    | some n ↦ done tt (record s { cells = write s.cells p (some (node n.content q)) })
  ]

  -- `malloc` with the writes that fill the node; `fresh` is what it returns.
  unfoldable pub allocate : Ptr → A → Cmd A (Unit {0})
  allocate fresh x s = done tt (record s { cells = write s.cells fresh (some (node x null)) })

  unfoldable pub free : Ptr → Cmd A (Unit {0})
  free p s = elim (s.cells p) [
    | none ↦ fault
    | some n ↦ done tt (record s { cells = write s.cells p none })
  ]

  -- `while ((*indirect) != NULL) indirect = &(*indirect)->next;`
  unfoldable pub walk_end : ℕ → Place → Cmd A Place
  walk_end zero indirect = λ s. no_fuel
  walk_end (suc fuel) indirect = do
    q ← read indirect
    if eqb q null then ret indirect else walk_end fuel (next_of q)

  -- The append of `dsu_sockets_add`.
  unfoldable pub link_last : ℕ → ℕ → Ptr → A → Cmd A Ptr
  link_last fuel head fresh new_node = do
    allocate fresh new_node
    indirect ← walk_end fuel (head_of head)
    assign indirect fresh
    ret fresh

  -- `while ((*indirect) != NULL && (*indirect)->fd != sockfd) indirect = &(*indirect)->next;`
  unfoldable pub walk_to : (A → Bool) → ℕ → Place → Cmd A Place
  walk_to hit zero indirect = λ s. no_fuel
  walk_to hit (suc fuel) indirect = do
    q ← read indirect
    if eqb q null
        then ret indirect
        else do n ← load q; if hit n.content then ret indirect else walk_to hit fuel (next_of q)

  -- The part of the removal behind the walk.
  unfoldable pub unlink : Place → Cmd A (Unit {0})
  unlink indirect = do
    q ← read indirect
    if eqb q null then ret tt else do n ← load q; assign indirect n.next; free q

  unfoldable pub unlink_first : (A → Bool) → ℕ → ℕ → Cmd A (Unit {0})
  unlink_first hit fuel head = do indirect ← walk_to hit fuel (head_of head); unlink indirect

  -- The search; NULL where no node matches.
  unfoldable pub find_first : (A → Bool) → ℕ → Ptr → Cmd A Ptr
  find_first hit zero p = λ s. no_fuel
  find_first hit (suc fuel) p =
      if eqb p null
      then ret null
      else do n ← load p; if hit n.content then ret p else find_first hit fuel n.next

-- `dsu_sockets_transfer_fd`: the node that is handed over is read where it stands.
unfoldable pub transfer_node : ℕ → ℕ → ℕ → Ptr → Ptr → Cmd DsuSocket Ptr
transfer_node fuel dest src fresh dsu_socketfd = do
  n ← load dsu_socketfd
  added ← link_last fuel dest fresh n.content
  m ← load dsu_socketfd
  unlink_first (λ s. s.fd == m.content.fd) fuel src
  ret added

-- The loop of `dsu_handle_conn` (src/event_handlers/select.c) over the connections of a node, which
-- removes nodes from the list that it walks: the walk has gone on to `next` when the node at hand is
-- removed by its descriptor. `closes` says whether a connection is closed, by the rounds that are left.
unfoldable pub sweep : (ℕ → ℤ → Bool) → ℕ → ℕ → ℕ → Ptr → Cmd ℤ (Unit {0})
sweep closes zero fuel head comfds = λ s. no_fuel
sweep closes (suc rounds) fuel head comfds = if eqb comfds null then ret tt else do
  n ← load comfds
  (if closes rounds n.content then unlink_first (λ fd. fd == n.content) fuel head else ret tt)
  sweep closes rounds fuel head n.next
