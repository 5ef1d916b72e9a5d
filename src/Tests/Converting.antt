-- ===== src/Tests/Converting.antt =====
-- Tests of the keyword arguments.
use hp34401a_driver.Base.{some, ◌≡◌, ◌↔◌}
use hp34401a_driver.Base.Text.{strip, upper}
use hp34401a_driver.Enums.{immediate}
use hp34401a_driver.Converters.{text, plain, str_of, as_trigger_source}
use hp34401a_driver.Converters.Members.{IsForm, as_trigger_source-IsForm}
use hp34401a_driver.Tests.Fixtures.{whole}

as_trigger_source-IsForm_example :
    as_trigger_source whole (plain (text " imm ")) ≡ some immediate
    ↔ IsForm (upper (strip (str_of whole (text " imm ")))) immediate
as_trigger_source-IsForm_example = as_trigger_source-IsForm whole (text " imm ") immediate
