-- ===== src/Heartbeat/Tests.antt =====
-- A heartbeat packet of a client with a version 2, over TCP.
use bifrost_sdk.Base.{◌≡◌, true, false, some, arith}
use bifrost_sdk.Receiver.Report.{pos}
use bifrost_sdk.Heartbeat.{
  res, req, udp, tcp, ipv4, ipv6, new_heartbeat_packet, set_time, get_packet, parse,
}
use bifrost_sdk.Heartbeat.RoundTrip.{parse-get_packet}

parse-get_packet_example :
    parse (get_packet (set_time (new_heartbeat_packet (pos 2) 7 0 res tcp ipv6 true) 1700000000000))
    ≡ some (some (new_heartbeat_packet (pos 0) 7 1700000000000 req udp ipv4 false))
parse-get_packet_example =
    parse-get_packet (pos 2) 7 0 1700000000000 res tcp ipv6 (omega arith) (omega arith)
