-- ===== src/Shm/Tests.antt =====
-- Runs of the model of kernel/gui/shm.c.
use core_z_os.Base.{◌+◌, ◌≡◌, refl, List, [], ◌∷◌, count}
use core_z_os.Shm.{
  shm_init, unused_buffer, wl_buffer_create, wl_buffer_ref, wl_buffer_release, page_addresses,
}
use core_z_os.Shm.Pages.{held}
use core_z_os.Shm.Ledger.{
  Call, buffer_create, buffer_ref, buffer_release, fresh, after, run, shm_pages_conserved,
}

-- A buffer of two pages gets a second reference, and loses both.
abbrev calls : List Call
calls = buffer_create 5000 0x100000 ∷ buffer_ref 0 ∷ buffer_release 0 ∷ buffer_release 0 ∷ []

shm_pages_conserved_example :
    count 0x101000 (held (run calls fresh).shm.bufs) + count 0x101000 (run calls fresh).freed
    ≡ count 0x101000 (run calls fresh).given_out
shm_pages_conserved_example = shm_pages_conserved calls 0x101000

freed_once : (run calls fresh).freed ≡ 0x100000 ∷ 0x101000 ∷ []
unfolding run after shm_init unused_buffer wl_buffer_create wl_buffer_ref wl_buffer_release
    page_addresses
freed_once = refl
