-- ===== src/Epoll/Compact.antt =====
-- `dsu_epoll_correct_events` of src/event_handlers/epoll.c: the events that are marked leave the
-- array in place. The member `fd` of the union `data` is its low 32 bits.
pub mod Filter
use sve.Base.{
  ℕ, zero, suc, ◌+◌, ◌-◌, ◌*◌, ◌/◌, ◌%◌, ◌^◌, List, none, some, if◌then◌else◌, ℤ, pos, negsuc,
  minus_one, ◌==◌, get_elem?, set,
}
use sve.Kernel.{EpollEvent}
use sve.Communication.{int32}

unfoldable pub data_fd : EpollEvent → ℤ
unfolding int32
data_fd e = int32 (e.data_bits % 2 ^ 32)

-- `events[i].data.fd = -1`
unfoldable pub clear_fd : EpollEvent → EpollEvent
clear_fd e = record e { data_bits = e.data_bits / 2 ^ 32 * 2 ^ 32 + (2 ^ 32 - 1) }

-- `events[j] = events[j + 1]`
unfoldable pub copy_down : ℕ → List EpollEvent → List EpollEvent
copy_down j events = elim (get_elem? events (suc j)) [ none ↦ events | some e ↦ set events j e ]

-- The inner loop, from `j` on, with its rounds counted.
unfoldable pub shift : ℕ → ℕ → List EpollEvent → List EpollEvent
unfolding copy_down
shift zero j events = events
shift (suc rounds) j events = shift rounds (suc j) (copy_down j events)

-- The outer loop at `i`, with `left` events before `nfds`: a marked one leaves and `i` stays,
-- any other is passed.
unfoldable pub correct_from : ℕ → ℕ → List EpollEvent → ℕ × List EpollEvent
unfolding shift data_fd
correct_from zero i events = (i, events)
correct_from (suc left) i events = elim (get_elem? events i) [
  | none ↦ (i, events)
  | some e ↦
      let removed = correct_from left i (shift left i events) in
      let passed = correct_from left (suc i) events in
      if data_fd e == minus_one then removed else passed
]

-- The new `nfds` and the array. With an error for `nfds` neither changes.
unfoldable pub correct_events : ℤ → List EpollEvent → ℤ × List EpollEvent
unfolding correct_from
correct_events (pos nfds) events = let (n, events') = correct_from nfds 0 events in (pos n, events')
correct_events (negsuc m) events = (negsuc m, events)
