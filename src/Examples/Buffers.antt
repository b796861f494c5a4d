-- ===== src/Examples/Buffers.antt =====
-- The mutable buffer and its clients at concrete inputs.
use dynamic_extension.Base.{◌≡◌, refl, true, false, List, [], ◌∷◌, ◌++◌, none, some, arith, take}
use dynamic_extension.Bloom.{exact}
use dynamic_extension.Record.{Record}
use dynamic_extension.View.{blank, make_view}
use dynamic_extension.View.Contents.{contents}
use dynamic_extension.Buffer.{
  Buffer, make_buffer, append, place, try_advance_tail, received, get_head, release_head_reference,
}
use dynamic_extension.Wal.{open_log}
use dynamic_extension.Wal.Replay.{append_all, inserted_all}
use dynamic_extension.Buffer.Replay.{
  build_buffer_from_log, stored_from, build_buffer_from_log-visible,
}
use dynamic_extension.Buffer.Append.{IsValid, stored, visible, append-visible, append-lost_slot}
use dynamic_extension.Buffer.Clients.{Shared, Step, appends, takes, here, next, count}
use dynamic_extension.Buffer.Heads.{IsCounted, Step-IsCounted, Reach-release}
use dynamic_extension.Buffer.Safety.{IsRoomy, Step-IsRoomy, append-keeps_views}

abbrev pub pair : Record
pair = record { key = 5; value = 6 }

abbrev pub fresh : Buffer (List Record)
fresh = record {
  lwm = 1;
  hwm = 2;
  cap = 4;
  tail = 0;
  head = record { head_idx = 0; refcnt = 0 };
  old_head = record { head_idx = 2; refcnt = 0 };
  cells = blank ∷ blank ∷ blank ∷ blank ∷ [];
  tombstone_filter = [];
  tscnt = 0;
  active_head_advance = false;
  wal = none;
}

-- One record, and then a view of it.
abbrev one : Buffer (List Record)
one = (append exact fresh pair false false).1

abbrev viewed : Buffer (List Record)
viewed = record one { head = record { head_idx = 0; refcnt = 1 } }

abbrev start : Shared (List Record)
start = record { buf = fresh; held = [] }

abbrev busy : Shared (List Record)
busy = record { buf = one; held = [] }

abbrev in_use : Shared (List Record)
in_use = record { buf = viewed; held = 0 ∷ [] }

pub fresh-IsValid : IsValid fresh
fresh-IsValid = record {
  ordered = omega arith;
  bounded = omega arith;
  room = omega arith;
  size = refl;
  small = omega arith;
}

append-visible_example :
    ((append exact fresh pair false true).0 ≡ true)
    × (visible (append exact fresh pair false true).1
        ≡ visible fresh ++ stored fresh pair false ∷ [])
append-visible_example = append-visible exact fresh pair false true fresh-IsValid (omega arith)

abbrev advanced : Buffer (List Record)
advanced = record fresh { head = record { head_idx = 2; refcnt = 0 }; tail = 3 }

abbrev at_word : Buffer (List Record)
at_word = record fresh { tail = 4294967295; head = record { head_idx = 4294967295; refcnt = 0 } }

append-lost_slot_example :
    append exact at_word pair false true ≡ (false, record at_word { tail = 4294967296 })
append-lost_slot_example =
    append-lost_slot exact at_word pair false true refl (omega arith) (omega arith)

abbrev at_half : Buffer (List Record)
at_half = record fresh {
  cap = 5;
  tail = 2147483649;
  head = record { head_idx = 2147483648; refcnt = 0 };
}

start-IsCounted : IsCounted start
unfolding count
start-IsCounted = record { current = refl; old = refl; others = λ h p q. refl; apart = omega arith }

append-Step : Step exact start busy
unfolding append try_advance_tail received
append-Step = appends pair false false true refl refl

take-Step : Step exact busy in_use
unfolding append place try_advance_tail received get_head
take-Step = takes 0 0 refl refl

busy-IsCounted : IsCounted busy
busy-IsCounted = Step-IsCounted exact start busy append-Step start-IsCounted

Step-IsCounted_example : IsCounted in_use
Step-IsCounted_example = Step-IsCounted exact busy in_use take-Step busy-IsCounted

fresh-IsRoomy : IsRoomy fresh
fresh-IsRoomy = record {
  ordered = omega arith;
  bounded = omega arith;
  double = omega arith;
  trailing = λ h. omega arith;
  referenced = λ h. omega arith;
}

Step-IsRoomy_example : IsRoomy one
unfolding append try_advance_tail received
Step-IsRoomy_example =
    Step-IsRoomy exact start busy (appends pair false false true refl refl) tt (omega arith)
      fresh-IsRoomy

viewed-IsRoomy : IsRoomy viewed
unfolding append place try_advance_tail received
viewed-IsRoomy = record {
  ordered = omega arith;
  bounded = omega arith;
  double = omega arith;
  trailing = λ h. omega arith;
  referenced = λ h. omega arith;
}

append-keeps_views_example :
    contents {F = List Record} (make_view 4 0 1 0 none) (append exact viewed pair true true).1.cells
    ≡ contents {F = List Record} (make_view 4 0 1 0 none) viewed.cells
unfolding append place try_advance_tail received count
append-keeps_views_example =
    append-keeps_views exact in_use pair true true 0 1 0 none viewed-IsRoomy
      (Step-IsCounted exact busy in_use take-Step busy-IsCounted) (omega arith) (omega arith)
      (omega arith) (omega arith)

Reach-release_example :
    IsCounted in_use
    × ((buf' : Buffer (List Record)) × (release_head_reference viewed 0 ≡ some buf'))
unfolding make_buffer exact count
Reach-release_example =
    Reach-release exact 1 2 0 none fresh in_use 0 (omega arith) refl
      (next (next here append-Step) take-Step) (omega arith)

-- Three insertions, of which two find room.
build_buffer_from_log-visible_example :
    visible (
      build_buffer_from_log exact
        (append_all (blank ∷ blank ∷ blank ∷ []) (open_log [])).file
        fresh)
    ≡ visible fresh ++ stored_from 4 0 (take 2 (inserted_all (blank ∷ blank ∷ blank ∷ [])))
build_buffer_from_log-visible_example =
    build_buffer_from_log-visible exact fresh fresh-IsValid (blank ∷ blank ∷ blank ∷ [])
      (omega arith)
