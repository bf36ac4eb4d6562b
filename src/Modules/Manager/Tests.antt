-- ===== src/Modules/Manager/Tests.antt =====
-- Two classes of modules and a class derived from one of them, with a configuration for one.
use qth_frame.Base.{◌≡◌, refl, true, none, some, List, [], ◌∷◌, All, arith}
use qth_frame.Modules.Manager.{
  ModuleClass, Node, read_nodes, do_read_xml, find_config, init, init_classes, init_class, place,
  un_init, un_init_from,
}
use qth_frame.Modules.Manager.Rounds.{Fits, place_of}
use qth_frame.Modules.Manager.Placing.{IsInit, no_modules, init-IsInit}

abbrev bag : ModuleClass
bag = record {
  class_name = "Bag";
  id = 7;
  base = some "Module";
  create_fn = true;
  messages = λ i. some 3;
}

abbrev shop : ModuleClass
shop = record {
  class_name = "Shop";
  id = 7;
  base = some "Module";
  create_fn = true;
  messages = λ i. none;
}

abbrev night_shop : ModuleClass
night_shop = record {
  class_name = "NightShop";
  id = 9;
  base = some "Shop";
  create_fn = true;
  messages = λ i. none;
}

abbrev classes : List ModuleClass
classes = night_shop ∷ shop ∷ bag ∷ []

abbrev file : List Node
file = record { class_name = "Bag"; module_id = 260; module_name = "" } ∷ []

-- The number of the configuration is cut to a byte.
read_file : do_read_xml (some file) [] ≡ ("Bag", (4, "Bag")) ∷ []
unfolding do_read_xml read_nodes find_config
read_file = refl

classes-Fits : All (λ c. Fits (place_of (do_read_xml (some file) []) c)) classes
unfolding do_read_xml read_nodes find_config
classes-Fits = (tt, (tt, (omega arith, tt)))

init-IsInit_example :
    IsInit
      (do_read_xml (some file) [])
      classes
      true
      no_modules
      (init (some file) [] classes no_modules)
init-IsInit_example = init-IsInit (some file) [] classes classes-Fits

-- With no configuration the second module of number 7 takes the place of the first, which is lost.
lost_module :
    (elim (init none [] classes no_modules) [ none ↦ [] | some (ok, m) ↦ (un_init m).deleted ])
    ≡ 1 ∷ []
unfolding init init_classes init_class do_read_xml place un_init un_init_from
lost_module = refl
