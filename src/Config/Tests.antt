-- ===== src/Config/Tests.antt =====
-- The theorems on the tuning at the default configuration.
use nya_queue.Prelude.{ℕ, ◌≡◌, refl, true, arith, set}
use nya_queue.Prelude.Int.{pos}
use nya_queue.Config.{
  Rounding, config_rules, meets, default_config, set_param_by_name, tunable_param_ranges,
  same_config,
}
use nya_queue.Config.Tuning.{
  setting, parameters, set_param_by_name-parameters, set_param_by_name-meets,
}

abbrev whole : Rounding
whole = record { Float = ℕ; rounded = pos; truncated = pos }

default_config_accepted : meets default_config config_rules ≡ true
unfolding meets default_config config_rules
default_config_accepted = refl

default_config_same : same_config default_config default_config ≡ true
unfolding same_config default_config
default_config_same = refl

set_param_by_name-parameters_example :
    (parameters (set_param_by_name whole default_config "LingerMs" 50)
      ≡ set (parameters default_config) 17 (pos 50))
    × ((set_param_by_name whole default_config "LingerMs" 50).sync_policy
        ≡ default_config.sync_policy)
unfolding tunable_param_ranges setting
set_param_by_name-parameters_example =
    set_param_by_name-parameters whole default_config 50 17
      (record { name = "LingerMs"; min = 0; max = 100 }) refl

set_param_by_name-meets_example :
    meets (set_param_by_name whole default_config "BatchSize" 1000) config_rules ≡ true
unfolding tunable_param_ranges
set_param_by_name-meets_example =
    set_param_by_name-meets whole default_config 1000 15
      (record { name = "BatchSize"; min = 1; max = 1000 }) refl
      (omega arith, omega arith, omega arith, omega arith) default_config_accepted
