-- ===== src/Shm/Ledger.antt =====
-- Runs of the calls of kernel/gui/shm.c.
use core_z_os.Base.{
  ℕ, zero, suc, ◌+◌, ◌≡◌, refl, ap, List, [], ◌∷◌, ◌++◌, arith, replicate, count, count-append,
}
use core_z_os.Shm.{
  no_buffer, no_pool, shm_init, wl_buffer_create, wl_buffer_ref, wl_buffer_release,
  wl_buffer_set_state, Shm, shm_pool_create, shm_pool_destroy,
}
use core_z_os.Shm.Pages.{
  held, handed, create-held, release-held, ref-held, set_state-held, pool_create-held,
  pool_destroy-held,
}

-- A call; a call that may create a buffer has what `get_kernel_pages` gives.
pub data Call : Type 0 where
  buffer_create : (size mem : ℕ) → Call
  buffer_ref : ℕ → Call
  buffer_release : ℕ → Call
  buffer_set_state : ℕ → ℕ → Call
  pool_create : (size mem : ℕ) → Call
  pool_destroy : ℕ → Call

-- The tables, and the pages that were handed out and that were freed so far.
pub record Ledger : Type 0 where
  pub shm : Shm
  pub given_out : List ℕ
  pub freed : List ℕ

abbrev pub fresh : Ledger
fresh = record {
  shm = record { bufs = shm_init; pools = replicate 32 no_pool };
  given_out = [];
  freed = [];
}

unfoldable pub after : Call → Ledger → Ledger
after (buffer_create size mem) l = record {
  shm = record l.shm { bufs = (wl_buffer_create size mem l.shm.bufs).1 };
  given_out = l.given_out ++ handed size mem l.shm.bufs;
  freed = l.freed;
}
after (buffer_ref i) l = record l { shm = record l.shm { bufs = wl_buffer_ref l.shm.bufs i } }
after (buffer_release i) l = record {
  shm = record l.shm { bufs = (wl_buffer_release l.shm.bufs i).0 };
  given_out = l.given_out;
  freed = l.freed ++ (wl_buffer_release l.shm.bufs i).1;
}
after (buffer_set_state i st) l = record l {
  shm = record l.shm { bufs = wl_buffer_set_state l.shm.bufs i st };
}
after (pool_create size mem) l = record {
  shm = (shm_pool_create size mem l.shm).1;
  given_out = l.given_out ++ handed size mem l.shm.bufs;
  freed = l.freed ++ (shm_pool_create size mem l.shm).2;
}
after (pool_destroy k) l = record {
  shm = (shm_pool_destroy k l.shm).0;
  given_out = l.given_out;
  freed = l.freed ++ (shm_pool_destroy k l.shm).1;
}

unfoldable pub run : List Call → Ledger → Ledger
run [] l = l
run (c ∷ cs) l = run cs (after c l)

-- Each page is in a buffer or freed, as often as it was handed out.
Balanced : ℕ → Ledger → Type 0
Balanced k l = count k (held l.shm.bufs) + count k l.freed ≡ count k l.given_out

after-Balanced : (k : ℕ) (c : Call) (l : Ledger) → Balanced k l → Balanced k (after c l)
unfolding after Balanced
after-Balanced k (buffer_create size mem) l b = omega (
  arith,
  b,
  create-held size mem k l.shm.bufs,
  count-append l.given_out (handed size mem l.shm.bufs) k,
)
after-Balanced k (buffer_ref i) l b = omega (arith, b, ref-held i k l.shm.bufs)
after-Balanced k (buffer_release i) l b = omega (
  arith,
  b,
  release-held k i l.shm.bufs,
  count-append l.freed (wl_buffer_release l.shm.bufs i).1 k,
)
after-Balanced k (buffer_set_state i st) l b = omega (arith, b, set_state-held i st k l.shm.bufs)
after-Balanced k (pool_create size mem) l b = omega (
  arith,
  b,
  pool_create-held size mem k l.shm,
  count-append l.given_out (handed size mem l.shm.bufs) k,
  count-append l.freed (shm_pool_create size mem l.shm).2 k,
)
after-Balanced k (pool_destroy j) l b =
    omega
      (arith, b, pool_destroy-held j k l.shm, count-append l.freed (shm_pool_destroy j l.shm).1 k)

run-Balanced : (k : ℕ) (cs : List Call) (l : Ledger) → Balanced k l → Balanced k (run cs l)
unfolding run
run-Balanced k [] l b = b
run-Balanced k (c ∷ cs) l b = run-Balanced k cs (after c l) (after-Balanced k c l b)

held-none : (n : ℕ) → held (replicate n no_buffer) ≡ []
held-none zero = refl
held-none (suc n) = held-none n

-- After any calls from the start on, with any answers of `get_kernel_pages`, each page that was
-- handed out is in one buffer that is in use or was given to `free_kernel_page`, and as often as it
-- was handed out: none is lost, and none is freed twice.
pub shm_pages_conserved :
    (calls : List Call) (page : ℕ)
    → count page (held (run calls fresh).shm.bufs) + count page (run calls fresh).freed
      ≡ count page (run calls fresh).given_out
unfolding Balanced shm_init
shm_pages_conserved calls page =
    run-Balanced page calls fresh (ap (λ ps. count page ps + 0) (held-none 32))
