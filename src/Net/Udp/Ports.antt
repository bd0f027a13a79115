-- ===== src/Net/Udp/Ports.antt =====
-- The ports of the blocks of drivers/net/udp.c.
use core_z_os.Base.{
  ℕ, zero, suc, ◌+◌, ◌<◌, ◌≡◌, ◌≢◌, ◌⊎◌, inl, inr, refl, sym, ap, ◌∙◌, subst, Bool-cases,
  Option-cases, true, false, none, some, List, [], ◌∷◌, arith, length, set, get_or-set_self,
  get_or-set_ne,
}
use native.Mathlib.Decide.{ℕ_discrete}
use core_z_os.Net.Udp.{
  UdpPcb, cleared, pcb_at, free_pcb, udp_pcb_alloc, udp_pcb_free, port_taken, udp_bind, udp_connect,
}

-- No two blocks in use have the same port, but for port 0, which a block has until it is bound.
abbrev pub PortsApart : List UdpPcb → Type 0
PortsApart pcbs =
    (i j : ℕ)
    → i ≢ j
    → (pcb_at pcbs i).active ≡ true
    → (pcb_at pcbs j).active ≡ true
    → (pcb_at pcbs i).local_port ≢ 0
    → (pcb_at pcbs i).local_port ≢ (pcb_at pcbs j).local_port

-- No other block in use has the port.
abbrev pub IsFree : ℕ → ℕ → List UdpPcb → Type 0
IsFree port i pcbs =
    (j : ℕ) → j ≢ i → (pcb_at pcbs j).active ≡ true → (pcb_at pcbs j).local_port ≢ port

port_taken-no :
    (port i j : ℕ) (pcbs : List UdpPcb)
    → port_taken port i j pcbs ≡ false
    → (k : ℕ) → j + k ≢ i
    → (pcb_at pcbs k).active ≡ true
    → (pcb_at pcbs k).local_port ≢ port
unfolding port_taken
port_taken-no port i j [] h k n a e = absurd cc
port_taken-no port i j (o ∷ os) h zero n a e = ground (arith, h, n, a, e)
port_taken-no port i j (o ∷ os) h (suc k) n a e =
    port_taken-no port i (suc j) os (ground (arith, h)) k (λ q. n (omega (arith, q))) a e

module _ (pcbs : List UdpPcb) (i : ℕ) (p : UdpPcb) (l : i < length pcbs) where
  at_self : (k : ℕ) → k ≡ i → pcb_at (set pcbs i p) k ≡ p
  at_self k e = ap (pcb_at (set pcbs i p)) e ∙ get_or-set_self pcbs i p cleared l

  at_other : (k : ℕ) → k ≢ i → pcb_at (set pcbs i p) k ≡ pcb_at pcbs k
  at_other k n = get_or-set_ne pcbs p cleared (λ e. n (sym e))

  -- A block is replaced by one that is not in use, or whose port is 0 or free.
  replace-PortsApart :
      PortsApart pcbs
      → (p.active ≡ true → (p.local_port ≡ 0) ⊎ IsFree p.local_port i pcbs)
      → PortsApart (set pcbs i p)
  replace-PortsApart apart free a b n on on' nz e = elim (ℕ_discrete a i) [
    | yes s ↦ elim (ℕ_discrete b i) [
      | yes t ↦ n (s ∙ sym t)
      | no t ↦ elim (free (sym (ap (λ q. q.active) (at_self a s)) ∙ on)) [
        | inl z ↦ nz (ap (λ q. q.local_port) (at_self a s) ∙ z)
        | inr f ↦ f b t (sym (ap (λ q. q.active) (at_other b t)) ∙ on') (
            sym (ap (λ q. q.local_port) (at_other b t))
            ∙ (sym e ∙ ap (λ q. q.local_port) (at_self a s)))
      ]
    ]
    | no s ↦ elim (ℕ_discrete b i) [
      | yes t ↦ elim (free (sym (ap (λ q. q.active) (at_self b t)) ∙ on')) [
        | inl z ↦ nz (e ∙ (ap (λ q. q.local_port) (at_self b t) ∙ z))
        | inr f ↦ f a s (sym (ap (λ q. q.active) (at_other a s)) ∙ on) (
            sym (ap (λ q. q.local_port) (at_other a s))
            ∙ (e ∙ ap (λ q. q.local_port) (at_self b t)))
      ]
      | no t ↦
          apart a b n (sym (ap (λ q. q.active) (at_other a s)) ∙ on)
            (sym (ap (λ q. q.active) (at_other b t)) ∙ on')
            (λ z. nz (ap (λ q. q.local_port) (at_other a s) ∙ z))
            (sym (ap (λ q. q.local_port) (at_other a s))
              ∙ (e ∙ ap (λ q. q.local_port) (at_other b t)))
    ]
  ]

free_pcb_lt : (pcbs : List UdpPcb) {i : ℕ} → free_pcb pcbs ≡ some i → i < length pcbs
unfolding free_pcb
free_pcb_lt [] h = absurd cc
free_pcb_lt (p ∷ ps) {i = zero} h = omega arith
free_pcb_lt (p ∷ ps) {i = suc i} h = ground (arith, h, free_pcb_lt ps {i = i})

-- A call that takes, gives back, binds or connects a block.
pub data PortOp : Type 0 where
  alloc : PortOp
  free : ℕ → PortOp
  bind : (i ip port : ℕ) → PortOp
  connect : (i ip port : ℕ) → PortOp

-- The blocks after a call; a call that fails leaves them as they are.
unfoldable pub run : PortOp → List UdpPcb → List UdpPcb
run alloc pcbs = (udp_pcb_alloc pcbs).1
run (free i) pcbs = udp_pcb_free i pcbs
run (bind i ip port) pcbs = elim (udp_bind i ip port pcbs) [ none ↦ pcbs | some pcbs' ↦ pcbs' ]
run (connect i ip port) pcbs = udp_connect i ip port pcbs

-- The call names a block that there is.
unfoldable pub Names : PortOp → List UdpPcb → Type 0
Names alloc pcbs = Unit
Names (free i) pcbs = i < length pcbs
Names (bind i ip port) pcbs = i < length pcbs
Names (connect i ip port) pcbs = i < length pcbs

-- Whatever is taken, given back, bound or connected, with a block that there is, no two blocks
-- in use have the same port, but for port 0.
pub run-PortsApart :
    (op : PortOp) (pcbs : List UdpPcb) → Names op pcbs → PortsApart pcbs → PortsApart (run op pcbs)
unfolding Names run udp_pcb_alloc udp_pcb_free udp_bind udp_connect
run-PortsApart alloc pcbs names apart = elim (Option-cases (free_pcb pcbs)) [
  | inl n ↦
      subst PortsApart (let e : pcbs ≡ run alloc pcbs = rw (run, udp_pcb_alloc, n) refl in e) apart
  | inr (i, f) ↦
      subst PortsApart
        (let e : set pcbs i (record cleared { active = true }) ≡ run alloc pcbs =
            rw (run, udp_pcb_alloc, f) refl in
          e)
        (replace-PortsApart pcbs i (record cleared { active = true }) (free_pcb_lt pcbs f) apart
          (λ on. inl refl))
]
run-PortsApart (free i) pcbs names apart =
    replace-PortsApart pcbs i (record (pcb_at pcbs i) { active = false }) names apart
      (λ on. absurd cc)
run-PortsApart (bind i ip port) pcbs names apart = elim (Bool-cases (port_taken port i 0 pcbs)) [
  | inl t ↦
      subst PortsApart (let e : pcbs ≡ run (bind i ip port) pcbs = rw (run, udp_bind, t) refl in e)
        apart
  | inr t ↦
      subst PortsApart
        (let e : set pcbs i (record (pcb_at pcbs i) { local_ip = ip; local_port = port })
              ≡ run (bind i ip port) pcbs =
            rw (run, udp_bind, t) refl in
          e)
        (replace-PortsApart pcbs i (record (pcb_at pcbs i) { local_ip = ip; local_port = port })
          names apart
          (λ on. inr (λ j n. port_taken-no port i 0 pcbs t j (λ e. n (omega (arith, e))))))
]
run-PortsApart (connect i ip port) pcbs names apart =
    replace-PortsApart pcbs i (record (pcb_at pcbs i) { remote_ip = ip; remote_port = port }) names
      apart
      (λ on. elim (ℕ_discrete (pcb_at pcbs i).local_port 0) [
        | yes z ↦ inl z
        | no nz ↦ inr (λ j n a e. apart i j (λ q. n (sym q)) on a nz (sym e))
      ])
