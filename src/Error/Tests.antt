-- ===== src/Error/Tests.antt =====
-- The theorem on error codes at the code of a full queue.
use open_hsm.Base.{◌≡◌, some}
use open_hsm.Error.{queue_full, code, error_string}
use open_hsm.Error.Category.{all_codes, find_text, find_text-error_string}

find_text-error_string_example :
    find_text (error_string (code queue_full)) all_codes ≡ some queue_full
find_text-error_string_example = find_text-error_string queue_full
