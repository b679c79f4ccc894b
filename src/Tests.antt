-- ===== src/Tests.antt =====
-- Tests, and the theorems at concrete inputs.
mod ArrayTests
mod Base64Tests
mod FileTests
mod HashmapTests
mod ListTests
mod ParserTests
mod MeasureTests
mod SpellingTests
mod StringTests
mod TypeTests
mod ArgumentTests
mod TypeCheckTests
