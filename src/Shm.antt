-- ===== src/Shm.antt =====
-- kernel/gui/shm.c: buffers of pages that are shared by counted references, and pools over them.
-- A buffer or a pool is named by its place; a negative one is out of range, as a large one is. What a
-- call does under shm_lock is one step.
pub mod Pages
pub mod Ledger
mod Tests
use core_z_os.Base.{
  ℕ, zero, suc, ◌+◌, ◌-◌, ◌*◌, ◌/◌, ◌%◌, ◌^◌, Bool, true, false, not, ◌||◌, Option, none, some,
  List, [], ◌∷◌, ◌++◌, ltb, ◌==◌, if◌then◌else◌, set, get_or, replicate,
}

abbrev pub page_size : ℕ
page_size = 4096

abbrev pub shm_max_pools : ℕ
shm_max_pools = 32

abbrev pub wlbuf_free : ℕ
wlbuf_free = 0

abbrev pub wlbuf_ready : ℕ
wlbuf_ready = 1

-- `struct WL_BUFFER`; the address 0 is no memory.
pub record Buffer : Type 0 where
  pub data_at : ℕ
  pub size : ℕ
  pub pages : ℕ
  pub refcnt : ℕ
  pub state : ℕ

abbrev pub no_buffer : Buffer
no_buffer = record { data_at = 0; size = 0; pages = 0; refcnt = 0; state = wlbuf_free }

unfoldable pub shm_init : List Buffer
shm_init = replicate shm_max_pools no_buffer

-- The loop for a buffer that is not in use.
unfoldable pub unused_buffer : List Buffer → Option ℕ
unused_buffer [] = none
unused_buffer (b ∷ bs) =
    if not (b.refcnt == 0)
    then elim (unused_buffer bs) [ none ↦ none | some i ↦ some (suc i) ]
    else some 0

-- How many pages hold `size` bytes.
abbrev pub pages_for : ℕ → ℕ
pages_for size = (size + page_size - 1) % 2 ^ 32 / page_size

-- `mem` is what `get_kernel_pages` gives; none is -1.
unfoldable pub wl_buffer_create : ℕ → ℕ → List Buffer → Option ℕ × List Buffer
wl_buffer_create size mem bufs = elim (unused_buffer bufs) [
  | none ↦ (none, bufs)
  | some i ↦ if (size == 0) || (mem == 0) then (none, bufs) else (
    some i,
    set bufs i (record {
      data_at = mem;
      size = size;
      pages = pages_for size;
      refcnt = 1;
      state = wlbuf_ready;
    }),
  )
]

abbrev pub buffer_at : List Buffer → ℕ → Buffer
buffer_at bufs id = get_or bufs id no_buffer

unfoldable pub wl_buffer_map : List Buffer → ℕ → ℕ
wl_buffer_map bufs id = if not (ltb id shm_max_pools) then 0 else (buffer_at bufs id).data_at

unfoldable pub wl_buffer_ref : List Buffer → ℕ → List Buffer
wl_buffer_ref bufs id =
    let b = buffer_at bufs id in
    if not (ltb id shm_max_pools)
    then bufs
    else if ltb 0 b.refcnt
    then set bufs id (record b { refcnt = b.refcnt + 1 })
    else bufs

-- The addresses of n pages from an address on.
unfoldable pub page_addresses : ℕ → ℕ → List ℕ
page_addresses zero at = []
page_addresses (suc n) at = at % 2 ^ 32 ∷ page_addresses n (at + page_size)

-- The buffers, and the pages that it hands to `free_kernel_page`.
unfoldable pub wl_buffer_release : List Buffer → ℕ → List Buffer × List ℕ
wl_buffer_release bufs id =
    let b = buffer_at bufs id in
    if not (ltb id shm_max_pools)
    then (bufs, [])
    else if b.refcnt == 0
    then (bufs, [])
    else if b.refcnt - 1 == 0
    then (set bufs id no_buffer, page_addresses b.pages b.data_at)
    else (set bufs id (record b { refcnt = b.refcnt - 1 }), [])

unfoldable pub wl_buffer_state : List Buffer → ℕ → ℕ
wl_buffer_state bufs id =
    if not (ltb id shm_max_pools) then wlbuf_free else (buffer_at bufs id).state

unfoldable pub wl_buffer_set_state : List Buffer → ℕ → ℕ → List Buffer
wl_buffer_set_state bufs id st =
    let b = buffer_at bufs id in
    if not (ltb id shm_max_pools)
    then bufs
    else if ltb 0 b.refcnt
    then set bufs id (record b { state = st })
    else bufs

-- `struct WL_SHM_POOL`, but for `pages`, which is never set; none is the buffer -1.
pub record Pool : Type 0 where
  pub data_at : ℕ
  pub size : ℕ
  pub in_use : Bool
  pub buf_id : Option ℕ

abbrev pub no_pool : Pool
no_pool = record { data_at = 0; size = 0; in_use = false; buf_id = none }

pub record Shm : Type 0 where
  pub bufs : List Buffer
  pub pools : List Pool

unfoldable pub unused_pool : List Pool → Option ℕ
unused_pool [] = none
unused_pool (p ∷ ps) =
    if p.in_use then elim (unused_pool ps) [ none ↦ none | some i ↦ some (suc i) ] else some 0

-- None is no pool; the pages are those that are freed.
unfoldable pub shm_pool_create : ℕ → ℕ → Shm → Option ℕ × Shm × List ℕ
shm_pool_create size mem s =
    let (id, bufs) = wl_buffer_create size mem s.bufs in
    elim id [
      | none ↦ (none, record s { bufs = bufs }, [])
      | some i ↦ elim (unused_pool s.pools) [
        | none ↦
            let (freed_bufs, freed) = wl_buffer_release bufs i in
            (none, record s { bufs = freed_bufs }, freed)
        | some k ↦ (
          some k,
          record {
            bufs = bufs;
            pools = set s.pools k (record {
              data_at = wl_buffer_map bufs i;
              size = size;
              in_use = true;
              buf_id = some i;
            });
          },
          [],
        )
      ]
    ]

-- What a pool lets go of.
unfoldable pub release_pool : List Buffer → Option ℕ → List Buffer × List ℕ
release_pool bufs none = (bufs, [])
release_pool bufs (some i) = wl_buffer_release bufs i

unfoldable pub shm_pool_destroy : ℕ → Shm → Shm × List ℕ
shm_pool_destroy k s =
    let pool = get_or s.pools k no_pool in
    let (bufs, freed) = release_pool s.bufs pool.buf_id in
    if not pool.in_use
    then (s, [])
    else (record { bufs = bufs; pools = set s.pools k no_pool }, freed)
