-- ===== src/Coreutils/Tests.antt =====
-- coreutils: each theorem at a concrete input.
use reverse_rewrite.Common.{List, [], ◌∷◌}
use reverse_rewrite.Common.Text.{Bytes, codes}
use reverse_rewrite.Coreutils.Echo.{default_options, filter_flags}
use reverse_rewrite.Coreutils.Echo.Flags.{IsFiltered, filter_flags-IsFiltered}

abbrev some_flags : List Bytes
some_flags = codes "-ne" ∷ codes "-E" ∷ codes "-x" ∷ codes "-n" ∷ []

filter_flags-IsFiltered_example : IsFiltered default_options some_flags (filter_flags some_flags)
filter_flags-IsFiltered_example = filter_flags-IsFiltered some_flags
