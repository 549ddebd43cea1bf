-- ===== src/Build.antt =====
-- The packet builders of router/sr_router.c. A packet is the list of its bytes; `none` is a read
-- past the end of the packet that is copied from.
pub mod ReadBack
pub mod Headers
use cscd58_nat.Base.{
  ℕ, ◌+◌, ◌-◌, ◌*◌, ◌/◌, ◌%◌, [], ◌∷◌, ◌++◌, Option, some, ◌==◌, leb, if◌then◌else◌, take, drop,
  length, replicate, Buffer, view, store8, store16, ntohs, require, ◌>>=◌, ◌>>◌,
}
use cscd58_nat.Proto.{ether_addr_len}
use cscd58_nat.Proto.Arp
use cscd58_nat.Proto.Ip
use cscd58_nat.Proto.Icmp
use cscd58_nat.Cksum.{cksum}

-- The bytes of a uint16_t and of a uint32_t in memory.
abbrev pub bytes16 : ℕ → Buffer
bytes16 v = v % 256 ∷ v / 256 % 256 ∷ []

abbrev pub bytes32 : ℕ → Buffer
bytes32 v = v % 256 ∷ v / 256 % 256 ∷ v / 65536 % 256 ∷ v / 16777216 % 256 ∷ []

unfoldable pub sr_create_etherframe : Buffer → Buffer → Buffer → ℕ → Buffer
sr_create_etherframe load dest_ether_addr source_ether_addr ether_type =
    take ether_addr_len dest_ether_addr
    ++ (take ether_addr_len source_ether_addr ++ (bytes16 (ntohs ether_type) ++ load))

-- The target hardware address stays 0 unless the packet is a reply.
unfoldable pub sr_create_arppacket : ℕ → Buffer → ℕ → Buffer → ℕ → Buffer
sr_create_arppacket arp_type source_ether_addr source_ip_addr dest_ether_addr dest_ip_addr =
    bytes16 (ntohs Arp.hrd_ethernet)
    ++ (bytes16 (ntohs Arp.pro_ip)
        ++ (6 ∷ 4 ∷ []
            ++ (bytes16 (ntohs arp_type)
                ++ (take ether_addr_len source_ether_addr
                    ++ (bytes32 source_ip_addr
                        ++ ((if arp_type == Arp.op_reply
                              then take ether_addr_len dest_ether_addr
                              else replicate 6 0)
                            ++ bytes32 dest_ip_addr))))))

-- The header as the assignments fill it in, its checksum still 0.
abbrev pub ip_fields : ℕ → ℕ → ℕ → ℕ → Buffer
ip_fields load_len protocol source_ip dest_ip =
    let h₀ = replicate Ip.size 0 in
    let h₁ = store8 h₀ 0 (Ip.default_hdrlen + Ip.ipv4_version * 16) in
    let h₂ = Ip.set_ttl h₁ Ip.default_ttl in
    let h₃ = store16 h₂ 2 (ntohs (Ip.size + load_len)) in
    let h₄ = store8 h₃ 9 protocol in Ip.set_dst (Ip.set_src h₄ source_ip) dest_ip

unfoldable pub sr_create_ippacket : Buffer → ℕ → ℕ → ℕ → Buffer
sr_create_ippacket load protocol source_ip dest_ip =
    let header = ip_fields (length load) protocol source_ip dest_ip in
    Ip.set_sum header (cksum header) ++ load

-- Not an echo reply: the identifier and sequence number are 0 and the first 28 bytes of `data`
-- follow. An echo reply copies those of the request, which is taken to start at `data + 20`; its
-- `data_len` is unsigned, so a smaller `ip_len` asks for a copy of almost 4 GB.
unfoldable pub icmp_body : Buffer → ℕ → Option Buffer
icmp_body packet icmp_type =
    if icmp_type == Icmp.echoreply
    then (do
      view packet 0 Ip.size
      let total = ntohs (Ip.len packet)
      require (leb (Ip.size + Icmp.size) total)
      view packet 0 total
      some (take (total - Ip.size - 4) (drop (Ip.size + 4) packet)))
    else (do view packet 0 Icmp.data_size; some (0 ∷ 0 ∷ 0 ∷ 0 ∷ take Icmp.data_size packet))

unfoldable pub sr_create_icmppacket : Buffer → ℕ → ℕ → Option Buffer
unfolding icmp_body
sr_create_icmppacket packet icmp_type icmp_code = do
  body ← icmp_body packet icmp_type
  let icmp_packet = icmp_type ∷ icmp_code ∷ 0 ∷ 0 ∷ body
  some (Icmp.set_sum icmp_packet 0 (cksum icmp_packet))
