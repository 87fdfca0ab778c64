-- ===== src/Serdes/Channel/Kinds.antt =====
-- The channels of liteiclink/serdes with their initialisations.
use liteiclink.Base.{Bool, true, false, refl}
use liteiclink.Serdes.GtxInit
use liteiclink.Serdes.GthInit
use liteiclink.Serdes.GthUsInit
use liteiclink.Serdes.GtyInit
use liteiclink.Serdes.GtpTxInit
use liteiclink.Serdes.GtpRxInit
use liteiclink.Serdes.Channel.{Initialisation, Kind}

abbrev pub gtx_init : (b : Bool) → Initialisation
gtx_init b = record {
  State = GtxInit.Init;
  Input = GtxInit.Input;
  power_on = GtxInit.power_on;
  next = GtxInit.next b;
  done = λ s n. (GtxInit.out b s n).done;
  drive = λ r l n. record n { restart = r; plllock = l };
  events = GtxInit.Order.events b;
  restarted_order = λ s l m ms n.
      GtxInit.Order.gtx_restarted_order b s (record m { restart = true; plllock = l }) ms n refl;
}

abbrev pub gth_init : (b : Bool) → Initialisation
gth_init b = record {
  State = GthInit.Init;
  Input = GthInit.Input;
  power_on = GthInit.power_on;
  next = GthInit.next b;
  done = λ s n. (GthInit.out b s n).done;
  drive = λ r l n. record n { restart = r; plllock = l };
  events = GthInit.Order.events b;
  restarted_order = λ s l m ms n.
      GthInit.Order.gth_restarted_order b s (record m { restart = true; plllock = l }) ms n refl;
}

abbrev pub gth_us_init : (rx b : Bool) → Initialisation
gth_us_init rx b = record {
  State = GthUsInit.Init;
  Input = GthUsInit.Input;
  power_on = GthUsInit.power_on;
  next = GthUsInit.next rx b;
  done = λ s n. (GthUsInit.out rx b s n).done;
  drive = λ r l n. record n { restart = r; plllock = l };
  events = GthUsInit.Order.events rx b;
  restarted_order = λ s l m ms n.
      GthUsInit.Order.gth_us_restarted_order rx b s (record m { restart = true; plllock = l }) ms n
        refl;
}

abbrev pub gty_init : (rx b : Bool) → Initialisation
gty_init rx b = record {
  State = GtyInit.Init;
  Input = GtyInit.Input;
  power_on = GtyInit.power_on;
  next = GtyInit.next rx b;
  done = λ s n. (GtyInit.out rx b s n).done;
  drive = λ r l n. record n { restart = r; plllock = l };
  events = GtyInit.Order.events rx b;
  restarted_order = λ s l m ms n.
      GtyInit.Order.gty_restarted_order rx b s (record m { restart = true; plllock = l }) ms n refl;
}

abbrev pub gtp_tx_init : (b : Bool) → Initialisation
gtp_tx_init b = record {
  State = GtpTxInit.Init;
  Input = GtpTxInit.Input;
  power_on = GtpTxInit.power_on;
  next = GtpTxInit.next b;
  done = λ s n. (GtpTxInit.out b s n).done;
  drive = λ r l n. record n { restart = r; plllock = l };
  events = GtpTxInit.Order.events b;
  restarted_order = λ s l m ms n.
      GtpTxInit.Order.gtp_tx_restarted_order b s (record m { restart = true; plllock = l }) ms n
        refl;
}

abbrev pub gtp_rx_init : (b : Bool) → Initialisation
gtp_rx_init b = record {
  State = GtpRxInit.Init;
  Input = GtpRxInit.Input;
  power_on = GtpRxInit.power_on;
  next = GtpRxInit.next b;
  done = λ s n. (GtpRxInit.out b s n).done;
  drive = λ r l n. record n { restart = r; plllock = l };
  events = GtpRxInit.Order.events b;
  restarted_order = λ s l m ms n.
      GtpRxInit.Order.gtp_rx_restarted_order b s (record m { restart = true; plllock = l }) ms n
        refl;
}

-- `tx_buffer_enable` and `rx_buffer_enable`
abbrev pub gtx : (t r : Bool) → Kind
gtx t r = record {
  tx = gtx_init t;
  rx = gtx_init r;
  pllreset = λ s n. (GtxInit.out t s n).pllreset;
}

abbrev pub gth_7series : (t r : Bool) → Kind
gth_7series t r = record {
  tx = gth_init t;
  rx = gth_init r;
  pllreset = λ s n. (GthInit.out t s n).pllreset;
}

abbrev pub gtp : (t r : Bool) → Kind
gtp t r = record {
  tx = gtp_tx_init t;
  rx = gtp_rx_init r;
  pllreset = λ s n. (GtpTxInit.out t s n).pllreset;
}

abbrev pub gth3 : (t r : Bool) → Kind
gth3 t r = record {
  tx = gth_us_init false t;
  rx = gth_us_init true r;
  pllreset = λ s n. (GthUsInit.out false t s n).pllreset;
}

abbrev pub gth4 : (t r : Bool) → Kind
gth4 t r = record {
  tx = gth_us_init false t;
  rx = gth_us_init true r;
  pllreset = λ s n. (GthUsInit.out false t s n).pllreset;
}

abbrev pub gty : (t r : Bool) → Kind
gty t r = record {
  tx = gty_init false t;
  rx = gty_init true r;
  pllreset = λ s n. (GtyInit.out false t s n).pllreset;
}
