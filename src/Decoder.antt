-- ===== src/Decoder.antt =====
-- src/decoder.h: the packet buffers, the two queues of pointers to them, and the operations that
-- both decoders inherit. A pointer is an address into `heap`; `new` hands out the address `fresh`.
-- Each queue operation is one step: the C code holds the queue's lock over it, and each queue has
-- one consumer, so its size test outside of the lock is not overtaken by another `next_item`.

use droidcam_whip_c.Common.{
  ℕ, ◌+◌, ◌-◌, ◌%◌, ◌^◌, Bool, false, List, [], ◌∷◌, ◌++◌, Option, none, some, ltb, ◌==◌,
  if◌then◌else◌,
}

-- `data` is the block that the pointer refers to, `[]` for a null pointer.
pub record DataPacket : Type 0 where
  pub block : List ℕ
  pub size : ℕ
  pub used : ℕ
  pub pts : ℕ

pub record Decoder : Type 0 where
  pub recieve_queue : List ℕ
  pub decode_queue : List ℕ
  pub alloc_count : ℕ
  pub ready : Bool
  pub failed : Bool
  pub heap : ℕ → DataPacket
  pub fresh : ℕ

-- `realloc` of libc: the new block, or nothing if there is no memory.
abbrev pub Realloc : Type 0
Realloc = List ℕ → ℕ → Option (List ℕ)

-- `Queue::add_item`
abbrev pub add_item : List ℕ → ℕ → List ℕ
add_item items item = items ++ (item ∷ [])

-- `Queue::next_item`; `none` is the null pointer.
abbrev pub next_item : List ℕ → Option ℕ × List ℕ
next_item [] = (none, [])
next_item (item ∷ items) = (some item, items)

unfoldable pub resize : Realloc → DataPacket → ℕ → DataPacket
resize brealloc p new_size =
    if ltb p.size new_size
    then elim (brealloc p.block new_size) [
      | none ↦ p
      | some tmp ↦ record p { block = tmp; size = new_size }
    ]
    else p

-- The constructor leaves `used` and `pts` as the allocator's memory has them: both are arguments.
unfoldable pub new_packet : Realloc → ℕ → ℕ → ℕ → DataPacket
unfolding resize
new_packet brealloc used pts new_size =
    resize brealloc (record { block = []; size = 0; used = used; pts = pts }) new_size

abbrev pub store : (ℕ → DataPacket) → ℕ → DataPacket → ℕ → DataPacket
store heap a p b = if a == b then p else heap b

unfoldable pub init_decoder : (ℕ → DataPacket) → Decoder
init_decoder heap = record {
  recieve_queue = [];
  decode_queue = [];
  alloc_count = 0;
  ready = false;
  failed = false;
  heap = heap;
  fresh = 0;
}

unfoldable pub pull_ready_packet : Decoder → Option ℕ × Decoder
pull_ready_packet d =
    let (item, items) = next_item d.decode_queue in (item, record d { decode_queue = items })

unfoldable pub push_empty_packet : Decoder → ℕ → Decoder
push_empty_packet d packet = record d { recieve_queue = add_item d.recieve_queue packet }

-- `new DataPacket(size)` at the address `fresh`, and `alloc_count ++` on a `size_t`.
alloc_packet : Realloc → Decoder → ℕ → ℕ × Decoder
alloc_packet brealloc d size = (
  d.fresh,
  record d {
    heap =
        store d.heap d.fresh
          (record (new_packet brealloc 0 (d.heap d.fresh).pts size) { used = 0 });
    alloc_count = (d.alloc_count + 1) % 2 ^ 64;
    fresh = d.fresh + 1;
  },
)

reuse_packet : Realloc → Decoder → ℕ → List ℕ → ℕ → ℕ × Decoder
reuse_packet brealloc d packet items size = (
  packet,
  record d {
    recieve_queue = items;
    heap = store d.heap packet (record (resize brealloc (d.heap packet) size) { used = 0 });
  },
)

unfoldable pub pull_empty_packet : Realloc → Decoder → ℕ → ℕ × Decoder
unfolding alloc_packet reuse_packet new_packet resize
pull_empty_packet brealloc d size = elim d.recieve_queue [
  | [] ↦ alloc_packet brealloc d size
  | packet ∷ items ↦ reuse_packet brealloc d packet items size
]

-- A loop of `~Decoder`: `alloc_count --` on a `size_t` for each packet of a queue.
unfoldable pub delete_all : List ℕ → ℕ → ℕ
delete_all [] alloc_count = alloc_count
delete_all (packet ∷ items) alloc_count = delete_all items ((alloc_count + 2 ^ 64 - 1) % 2 ^ 64)

-- `~Decoder`: the addresses that it frees, in order, and the count that is left.
unfoldable pub destroy : Decoder → List ℕ × ℕ
unfolding delete_all
destroy d = (
  d.recieve_queue ++ d.decode_queue,
  delete_all d.decode_queue (delete_all d.recieve_queue d.alloc_count),
)
