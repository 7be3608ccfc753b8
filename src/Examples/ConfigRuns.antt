-- ===== src/Examples/ConfigRuns.antt =====
-- The merge of settings on a small input, and settings of the regimes.
use pypoc.Prelude.Int.{pos}
use pypoc.Numbers.{micro_float, Micro}
use pypoc.Config.{RegimeCfg}
use pypoc.Prelude.{◌≡◌, refl}
use pypoc.Prelude.Json.{number, object, text, no_fields, field, get, Fields}
use pypoc.Config.Merge.{deep_merge, merged, deep_merge-merged}
use pypoc.Examples.Data.{rupees, cents}

abbrev risk_section : Fields Micro
risk_section =
    field "max_open_positions" (number (rupees 5))
      (field "per_trade_risk_pct" (number (rupees 1)) no_fields)

abbrev default_settings : Fields Micro
default_settings = field "mode" (text "paper") (field "risk" (object risk_section) no_fields)

abbrev dev_settings : Fields Micro
dev_settings =
    field "risk" (object (field "max_open_positions" (number (rupees 2)) no_fields)) no_fields

deep_merge-merged_example :
    get "risk" (deep_merge default_settings dev_settings)
    ≡ merged (get "risk" default_settings) (get "risk" dev_settings)
deep_merge-merged_example = deep_merge-merged default_settings dev_settings "risk" (refl, tt)

abbrev pub regime_cfg : RegimeCfg Micro
regime_cfg = record {
  adx_period = pos 14;
  adx_trend_threshold = rupees 25;
  bb_width_range_threshold = cents 4;
  vix_volatile_threshold = rupees 20;
}
