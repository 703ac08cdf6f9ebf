-- ===== src/Tests/Calculating.antt =====
-- The calculator on numbers of both signs.
use system_software.Prelude.{◌≡◌, ◌+◌, ◌-◌, ◌^◌, ◌%◌, ◌==◌, if◌then◌else◌, arith}
use system_software.Prelude.Int.{◌+ℤ◌, neg}
use system_software.Calculator.{Int64, add64, sub64, print_binary}
use system_software.Calculator.Bit.{value, IsInt64}
use system_software.Calculator.Results.{signed64, fits, add64_lem, sub64_lem}
use system_software.Calculator.Print.{read_bits, read_bits-print_binary}

-- - 2, 5, the least number, and what a variable holds that is not initialised.
abbrev minus_two : Int64
minus_two = record { hp = 2 ^ 32 - 1; lp = 2 ^ 32 - 2 }

abbrev five : Int64
five = record { hp = 0; lp = 5 }

abbrev least : Int64
least = record { hp = 2 ^ 31; lp = 0 }

abbrev rubbish : Int64
rubbish = record { hp = 7; lp = 2 ^ 32 - 3 }

add64_lem_example :
    IsInt64 (add64 minus_two five rubbish 0).0
    × (value (add64 minus_two five rubbish 0).0 ≡ (value minus_two + value five) % 2 ^ 64)
    × ((add64 minus_two five rubbish 0).1
        ≡ (if fits (signed64 (value minus_two) +ℤ signed64 (value five)) then 0 else 1))
add64_lem_example = add64_lem minus_two five rubbish 0 (omega arith) (omega arith) (omega arith)

sub64_lem_example :
    IsInt64 (sub64 minus_two least rubbish five 0).0
    × (value (sub64 minus_two least rubbish five 0).0
        ≡ (value minus_two + 2 ^ 64 - value least) % 2 ^ 64)
    × ((sub64 minus_two least rubbish five 0).1 ≡ (
        if value least == 2 ^ 63
        then 1
        else if fits (signed64 (value minus_two) +ℤ neg (signed64 (value least)))
        then 0
        else 1))
sub64_lem_example =
    sub64_lem minus_two least rubbish five 0 (omega arith) (omega arith) (omega arith) (omega arith)

read_bits-print_binary_example : read_bits 0 (print_binary five) ≡ value five
read_bits-print_binary_example = read_bits-print_binary five (omega arith)
