-- ===== src/Tests/Configurations.antt =====
-- The configuration file at concrete texts.
use hyper_graph_streaming_cc.Prelude.{
  ℕ, ◌≡◌, ◌≤◌, ◌<◌, ◌^◌, refl, List, ◌++◌, none, some, true, false, arith,
}
use hyper_graph_streaming_cc.Exceptions.{ok, throw, invalid_argument, out_of_range}
use hyper_graph_streaming_cc.Configuration.Text.{codes}
use hyper_graph_streaming_cc.Configuration.Defs.{Configuration, defaults, configure_system}
use hyper_graph_streaming_cc.Configuration.Bounds.{configure_system_bounds}
use hyper_graph_streaming_cc.Configuration.Writing.{disk_dir_of, write_configuration}
use hyper_graph_streaming_cc.Configuration.Writing.RoundTrip.{configure_system-write_configuration}

abbrev text : List ℕ
text = codes "# workers\nbuffering_system=tree\n\ndisk_dir=/tmp\nnum_groups= 4 x\ngroup_size=-2\n"

abbrev settings : Configuration
settings = record {
  use_guttertree = true;
  backup_in_mem = true;
  dir = codes "/tmp/";
  num_groups = 4;
  group_size = 1;
}

configure_text : configure_system (some text) ≡ ok settings
unfolding configure_system
configure_text = refl

configure_bad_text :
    (configure_system (some (codes "num_groups=four")) ≡ throw invalid_argument)
    × (configure_system (some (codes "group_size=2147483648")) ≡ throw out_of_range)
unfolding configure_system
configure_bad_text = (refl, refl)

-- A value that is no option leaves what an earlier line set.
configure_kept :
    configure_system (some (codes "backup_in_mem=OFF\nbackup_in_mem=maybe\n"))
    ≡ ok (record defaults { backup_in_mem = false })
unfolding configure_system
configure_kept = refl

configure_system_bounds_example :
    ((1 ≤ settings.num_groups) × (settings.num_groups < 2 ^ 31))
    × ((1 ≤ settings.group_size) × (settings.group_size < 2 ^ 31))
    × ((parent : List ℕ) × (settings.dir ≡ parent ++ codes "/"))
configure_system_bounds_example =
    configure_system_bounds
      (some (
        codes
          "# workers\nbuffering_system=tree\n\ndisk_dir=/tmp\nnum_groups= 4 x\ngroup_size=-2\n"))
      settings configure_text

configure_system-write_configuration_example :
    configure_system (some (write_configuration none true false 20 1))
    ≡ ok (record {
      use_guttertree = true;
      backup_in_mem = false;
      dir = codes "./";
      num_groups = 20;
      group_size = 1;
    })
unfolding disk_dir_of
configure_system-write_configuration_example =
    configure_system-write_configuration none true false 20 1 (omega arith) (omega arith)
      (omega arith) (omega arith)
