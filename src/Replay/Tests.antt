-- ===== src/Replay/Tests.antt =====
-- upx_replay.h: the numbers of two peers, one of them around the wrap.
use usb_proxy_udp.Base.{◌≡◌, [], not, arith}
use usb_proxy_udp.Replay.{Peer, Tracker, accept, stale, sequence_newer}
use usb_proxy_udp.Replay.Laws.{IsPeerTable, accept-IsPeerTable, stale-accept}

abbrev here : Peer
here = record { address = 0xc0a8_0001; port = 4000 }

abbrev there : Peer
there = record { address = 0xc0a8_0002; port = 4000 }

abbrev one_peer : Tracker
one_peer = accept [] here 0xffff_fffe 100

empty-IsPeerTable : IsPeerTable []
empty-IsPeerTable = ground arith

accept-IsPeerTable_example : IsPeerTable (accept one_peer there 5 200)
accept-IsPeerTable_example =
    accept-IsPeerTable one_peer there 5 200
      (accept-IsPeerTable [] here 0xffff_fffe 100 empty-IsPeerTable)

-- The number 1 comes after 0xffff_fffe.
stale-accept_example :
    (stale (accept one_peer here 0xffff_fffe 200) here 1 300).1 ≡ not (sequence_newer 1 0xffff_fffe)
stale-accept_example = stale-accept one_peer here 0xffff_fffe 200 300 1 (omega arith)
