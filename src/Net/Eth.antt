-- ===== src/Net/Eth.antt =====
-- `eth_input` of drivers/net/eth.c.
use core_z_os.Base.{ℕ, Bool, not, ◌&&◌, List, [], ◌∷◌, ltb, ◌==◌, if◌then◌else◌, length, drop}
use core_z_os.Net.{Mac, mac_at, net_be16, Netif, Event, ip_packet, eth_hdr_len, eth_arp, eth_ip}
use core_z_os.Net.Arp.{Arp, arp_input, broadcast}

-- The loops that compare six bytes.
abbrev pub same_mac : Mac → Mac → Bool
same_mac a b =
    (a.m0 == b.m0)
    && (a.m1 == b.m1)
    && (a.m2 == b.m2)
    && (a.m3 == b.m3)
    && (a.m4 == b.m4)
    && (a.m5 == b.m5)

unfoldable pub eth_input : Netif → List ℕ → Arp → Arp × List Event
unfolding net_be16
eth_input ifp frame a =
    let dst = mac_at frame 0 in
    let type = net_be16 frame 12 in
    let payload = drop eth_hdr_len frame in
    if ltb (length frame) eth_hdr_len
    then (a, [])
    else if not (same_mac dst ifp.mac) && not (same_mac dst broadcast)
    then (a, [])
    else if type == eth_arp
    then arp_input ifp payload a
    else if type == eth_ip
    then (a, ip_packet payload ∷ [])
    else (a, [])
