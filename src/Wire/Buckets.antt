-- ===== src/Wire/Buckets.antt =====
-- The statistics' size classes.
use libutp.Base.{ℕ, ◌≤◌, ◌≡◌, ◌≢◌, ◌↔◌, arith}
use libutp.Wire.{PacketSizeBucket, empty, small, mid, big, huge, packet_size_bucket}
use libutp.Wire.{packet_size_from_bucket}

-- The class below, with a size that no packet of a class is as small as.
unfoldable pub lower_limit : PacketSizeBucket → ℕ
lower_limit empty = 0
lower_limit small = 24
lower_limit mid = 374
lower_limit big = 724
lower_limit huge = 1401

-- The classes cut the sizes into consecutive ranges: a size is put into a class exactly if it lies
-- between the class's lower limit and, but for the largest class, the class's own size.
packet_size_bucket_iff :
    (len : ℕ) (b : PacketSizeBucket)
    → (packet_size_bucket len ≡ b)
      ↔ ((lower_limit b ≤ len) × (b ≢ huge → len ≤ packet_size_from_bucket b))
unfolding packet_size_bucket lower_limit packet_size_from_bucket
packet_size_bucket_iff len empty = ground arith
packet_size_bucket_iff len small = ground arith
packet_size_bucket_iff len mid = ground arith
packet_size_bucket_iff len big = ground arith
packet_size_bucket_iff len huge = ground arith
