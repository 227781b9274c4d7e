-- ===== src/Tests/Data.antt =====
-- Two concrete versions of the type float: numbers in units of 10^-8.
use image_app.Common.{ℕ, ◌-◌, ◌*◌, ◌/◌, false, pos, pos_part, ◌==◌}
use image_app.Strings.CacheName.{Floats}
use image_app.Request.Accept.{Quality}
use image_app.ParseInt.{parse_int}

abbrev pub fixed : Floats
fixed = record {
  Float = ℕ;
  to_int = λ x. pos (x / 100000000);
  of_int = λ z. pos_part z * 100000000;
  minus = λ x y. x - y;
  scale = λ x. pos x;
}

abbrev pub fixed_quality : Quality
fixed_quality = record {
  Float = ℕ;
  nought = 0;
  one = 100000000;
  eight_tenths = 80000000;
  is_nought = λ x. x == 0;
  strtof = λ s. (pos_part (parse_int s) * 100000000, false);
}
