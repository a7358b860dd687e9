-- ===== src/Statics/Tests.antt =====
-- Runs of the functions on static and global data at concrete inputs.
use bbae.Common.{ℕ, ◌≡◌, ◌%◌, ◌^◌, refl, true, false, [], ◌∷◌, ◌++◌, ok, Bytes, codes, arith}
use bbae.Types.{TypeVariant, basic_type, type_is_basic, type_size, size_guess_align, double_while}
use bbae.Text.{my_strtoull, digit_of}
use bbae.Statics.{
  GlobalData, Program, decimal, decimal_loop, make_temp_name, add_static_anonymous, add_global,
}
use bbae.Statics.Names.{my_strtoull-decimal}
use bbae.Statics.Find.{Serves, add_static_anonymous-Serves}
use bbae.Statics.Layout.{Added, add_global-Added}

abbrev nothing_at : ℕ → Bytes
nothing_at a = []

-- A program with one static and one global of a byte.
abbrev small_program : Program
small_program = record {
  globals =
      record {
        name = codes "flag";
        type_of = basic_type TypeVariant.i8;
        location = 0;
        allocated_size = 1;
        is_private = false;
      }
      ∷ [];
  globals_bytecount = 1;
  statics =
      record {
        name = codes "pi";
        type_of = basic_type TypeVariant.f32;
        init_data_short = 0x40490fdb;
        init_data_long = [];
        location = 0;
        is_private = false;
      }
      ∷ [];
  temp_ctr = 11;
}

third_name : make_temp_name 11 ≡ (codes "btemp_12", 12)
unfolding make_temp_name decimal decimal_loop
third_name = refl

my_strtoull-decimal_example :
    my_strtoull (decimal 4096 ++ codes ",") ≡ ok (4096 % 2 ^ 64, codes ",")
unfolding digit_of
my_strtoull-decimal_example = my_strtoull-decimal 4096 (codes ",") refl (λ e. omega arith)

add_static_anonymous-Serves_example :
    (name : Bytes) × (after : Program) × (add_static_anonymous nothing_at TypeVariant.i8 256
        small_program 300
      ≡ ok (name, after))
    × Serves small_program TypeVariant.i8 (300 % 256) name after
unfolding type_is_basic make_temp_name decimal decimal_loop
add_static_anonymous-Serves_example =
    add_static_anonymous-Serves nothing_at TypeVariant.i8 256 small_program 300 refl (tt, tt)
      ((λ e. grind arith), tt)

add_global-Added_example :
    (g : GlobalData) × (after : Program) × (add_global small_program
        (codes "count")
        (basic_type TypeVariant.i64)
        true
      ≡ ok (g, after))
    × Added small_program (codes "count") (basic_type TypeVariant.i64) 8 g after
unfolding type_size size_guess_align double_while
add_global-Added_example =
    add_global-Added small_program (codes "count") (basic_type TypeVariant.i64) true 8 refl
      ((1, refl, refl), omega arith, tt, tt) (omega arith)
